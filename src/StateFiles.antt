-- ===== src/StateFiles.antt =====
-- The files of src/state_store.rs: the five entries of the private state directory, their names and
-- byte budgets, and what the directory holds.
use host_monitoring_client.Common.{ℕ, ◌*◌, Bool, Option, List}
use host_monitoring_client.Common.Text.{Text, codes}

pub data StateFile : Type 0 where
  identity credential pairing authorization binding : StateFile

abbrev pub name : StateFile → Text
name identity = codes "host-id"
name credential = codes "client-token"
name pairing = codes "pairing-state.json"
name authorization = codes "auth-state.json"
name binding = codes "active-binding.json"

abbrev pub max_bytes : StateFile → ℕ
max_bytes identity = 128
max_bytes credential = 4096
max_bytes pairing = 64 * 1024
max_bytes authorization = 16 * 1024
max_bytes binding = 16 * 1024

-- The state directory: whether it is there, each file's content, and the archived copies.
pub record Disk : Type 0 where
  pub present : Bool
  pub identity_file : Option Text
  pub credential_file : Option Text
  pub pairing_file : Option Text
  pub authorization_file : Option Text
  pub binding_file : Option Text
  pub archives : List (Text × Text)

abbrev pub content : StateFile → Disk → Option Text
content identity d = d.identity_file
content credential d = d.credential_file
content pairing d = d.pairing_file
content authorization d = d.authorization_file
content binding d = d.binding_file

abbrev pub put : StateFile → Option Text → Disk → Disk
put identity t d = record d { identity_file = t }
put credential t d = record d { credential_file = t }
put pairing t d = record d { pairing_file = t }
put authorization t d = record d { authorization_file = t }
put binding t d = record d { binding_file = t }
