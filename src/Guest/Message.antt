-- ===== src/Guest/Message.antt =====
-- pkg/api/v1/messages.go: the commands that the host sends to the agent in a VM.
use goship.Base.{Text, lit, Option, ℤ}
use goship.Entities.App.{AppSpec}

pub record InitCommand : Type 0 where
  pub action : Text
  pub app : Option AppSpec
  pub app_name : Text
  pub lines : ℤ
  pub log_file : Text
  pub phase : Text
  pub chunk : Text  -- the field Data
  pub size : ℤ  -- int64
  pub checksum : Text
  pub file_name : Text
  pub image_ref : Text

abbrev pub phase_begin : Text
phase_begin = lit "begin"

abbrev pub phase_data : Text
phase_data = lit "data"

abbrev pub phase_finish : Text
phase_finish = lit "finish"
