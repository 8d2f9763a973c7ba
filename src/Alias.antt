-- ===== src/Alias.antt =====
-- crates/hrc-core/src/alias.rs: which local display names are stored, with `str::trim` and
-- `char::is_control` on the code points of a text.
pub mod Stored
mod Examples
use Prim.Native.Char.{code}
use herdr_remote_channel.Prelude.{
  ℕ, suc, String, Bool, true, false, ◌&&◌, ◌||◌, leb, ltb, if◌then◌else◌,
}
use herdr_remote_channel.Errors.{Result, ok, reject_if, ◌>>◌}
use herdr_remote_channel.Protocol.Text.{is_whitespace}

abbrev pub max_alias : ℕ
max_alias = 32

pub data AliasError : Type 0 where
  empty too_long control : AliasError

abbrev pub reason_of : AliasError → String
reason_of empty = "a display name cannot be blank"
reason_of too_long = "a display name is at most 32 characters"
reason_of control = "a display name cannot contain control characters"

abbrev pub is_empty : String → Bool
is_empty String.[] = true
is_empty (String.◌∷◌ c s) = false

unfoldable pub trim_start : String → String
unfolding is_whitespace
trim_start String.[] = String.[]
trim_start (String.◌∷◌ c s) = if is_whitespace (code c) then trim_start s else String.◌∷◌ c s

unfoldable pub trim_end : String → String
unfolding is_whitespace
trim_end String.[] = String.[]
trim_end (String.◌∷◌ c s) =
    let rest = trim_end s in
    if is_empty rest && is_whitespace (code c) then String.[] else String.◌∷◌ c rest

unfoldable pub trim : String → String
unfolding trim_start trim_end
trim s = trim_end (trim_start s)

-- `chars().count()`.
unfoldable pub count_chars : String → ℕ
count_chars String.[] = 0
count_chars (String.◌∷◌ c s) = suc (count_chars s)

-- `char::is_control`: the general category Cc.
abbrev is_control : ℕ → Bool
is_control c = ltb c 0x20 || (leb 0x7f c && leb c 0x9f)

unfoldable pub any_control : String → Bool
any_control String.[] = false
any_control (String.◌∷◌ c s) = is_control (code c) || any_control s

unfoldable pub check_alias : String → Result AliasError String
unfolding trim count_chars any_control
check_alias proposed = do
  let trimmed = trim proposed
  reject_if (is_empty trimmed) empty
  reject_if (ltb max_alias (count_chars trimmed)) too_long
  reject_if (any_control trimmed) control
  ok trimmed
