-- ===== src/Entities/Resources.antt =====
-- The structs of pkg/domain/entities that the program stores and hands on: resources of
-- project.go, the topology of vm.go and capabilities.go.
use goship.Base.{Text, ℕ, Bool, nat_eq, List, Option, ℤ}

-- A float64 by its 64 bits: the program stores such a value and tests its sign.
abbrev pub Float64 : Type 0
Float64 = ℕ

pub record Resources : Type 0 where
  pub cpu : Float64
  pub memory_mb : ℤ  -- int64
  pub disk_mb : ℤ  -- int64

pub record MemoryBacking : Type 0 where
  pub hugepages : Bool
  pub hugepage_size : ℤ
  pub source : Text
  pub locked : Bool

pub record DiskDevice : Type 0 where
  pub path : Text
  pub format : Text
  pub bus : Text
  pub read_only : Bool
  pub cache : Text

pub record NetworkDevice : Type 0 where
  pub kind : Text
  pub source : Text
  pub mac_address : Text
  pub model : Text

pub record SerialDevice : Type 0 where
  pub kind : Text
  pub socket_path : Text
  pub port_name : Text

pub record CpuTopology : Type 0 where
  pub sockets : ℕ
  pub cores : ℕ
  pub threads : ℕ
  pub model : Text
  pub features : List Text

pub record VmTopology : Type 0 where
  pub cpu : CpuTopology
  pub memory_backing : Option MemoryBacking
  pub disks : List DiskDevice
  pub networks : List NetworkDevice
  pub serials : List SerialDevice
