-- ===== src/Protocol/Kind.antt =====
-- `MessageKind` of crates/hrc-protocol/src/lib.rs.
use herdr_remote_channel.Prelude.{String, ◌≡◌, refl, Option, some, List, [], ◌∷◌, str_eq, find}

pub data MessageKind : Type 0 where
  note question answer task task_accept task_decline progress result cancel receipt capabilities :
      MessageKind

abbrev pub as_str : MessageKind → String
as_str note = "note"
as_str question = "question"
as_str answer = "answer"
as_str task = "task"
as_str task_accept = "task_accept"
as_str task_decline = "task_decline"
as_str progress = "progress"
as_str result = "result"
as_str cancel = "cancel"
as_str receipt = "receipt"
as_str capabilities = "capabilities"

abbrev pub all : List MessageKind
all =
    note ∷ question ∷ answer ∷ task ∷ task_accept ∷ task_decline ∷ progress ∷ result ∷ cancel
    ∷ receipt ∷ capabilities ∷ []

unfoldable pub parse : String → Option MessageKind
parse value = find (λ kind. str_eq (as_str kind) value) all

-- Every kind parses from its own wire name.
pub parse-as_str : (kind : MessageKind) → parse (as_str kind) ≡ some kind
unfolding parse
parse-as_str note = refl
parse-as_str _ = refl
