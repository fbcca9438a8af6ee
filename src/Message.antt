-- ===== src/Message.antt =====
-- src/rosy/node/types.py, node/topic/types.py and node/service/types.py: what nodes send.
pub mod Codecs
pub mod Node
use rosy.Base.{List, Option}
use rosy.Base.Int.{ℤ}
use rosy.Base.Text.{Text}
use rosy.Base.Dict.{Dict}

-- Python values that a message carries. `null` is None.
abbrev pub Args : Type 0 → Type 0
Args Data = List Data

abbrev pub Kwargs : Type 0 → Type 0
Kwargs Data = Dict Text Data

abbrev pub RequestId : Type 0
RequestId = ℤ

pub record TopicMessage (Data : Type 0) : Type 0 where
  pub topic : Text
  pub args : Args Data
  pub kwargs : Kwargs Data

pub record ServiceRequest (Data : Type 0) : Type 0 where
  pub id : RequestId
  pub service : Text
  pub args : Args Data
  pub kwargs : Kwargs Data

pub record ServiceResponse (Data : Type 0) : Type 0 where
  pub id : RequestId
  pub result : Data
  pub error : Option Text
