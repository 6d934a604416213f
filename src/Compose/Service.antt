-- ===== src/Compose/Service.antt =====
-- internal/compose/types.go: a compose file as yaml.v3 decodes it.
use goship.Base.{Text, List, Option, Dict}

-- An element of a list or a mapping: the code asks whether it is a string, and for what `%v` prints.
pub data Item : Type 0 where
  str other : Text → Item

-- A field of type `any` that is not nil.
pub data Value : Type 0 where
  str : Text → Value
  seq : List Item → Value
  mapping : Dict Item → Value
  other : Value

pub record ComposeResourceSpec : Type 0 where
  pub cpus : Text
  pub memory : Text

pub record ComposeResources : Type 0 where
  pub limits : Option ComposeResourceSpec

pub record ComposeDeploy : Type 0 where
  pub resources : Option ComposeResources

pub record ComposeService : Type 0 where
  pub image : Text
  pub command : Option Value
  pub ports : List Text
  pub env_file : Option Value
  pub environment : Option Value
  pub volumes : List Text
  pub restart : Text
  pub deploy : Option ComposeDeploy
  pub depends_on : Option Value
  pub networks : Option Value
  pub build : Option Value
  pub labels : Dict Text

pub record ComposeFile : Type 0 where
  pub version : Text
  pub services : Dict ComposeService

pub record BuildContext : Type 0 where
  pub context : Text
  pub dockerfile : Text
  pub image_name : Text
