-- ===== src/Alias/Stored.antt =====
-- crates/hrc-core/src/alias.rs: a display name that was stored is accepted again as it is.
use mathlib.Core.Path.{subst}
use Prim.Native.Char.{code}
use herdr_remote_channel.Prelude.{
  ◌≤◌, ◌≡◌, refl, ap, ◌∙◌, inl, inr, String, Bool, true, false, ◌&&◌, arith, Bool-cases,
}
use herdr_remote_channel.Errors.{ok}
use herdr_remote_channel.Protocol.Text.{is_whitespace}
use herdr_remote_channel.Alias.{
  max_alias, is_empty, trim_start, trim_end, trim, count_chars, any_control, check_alias,
}

-- The text does not begin with a space.
abbrev begins_clean : String → Bool
begins_clean String.[] = true
begins_clean (String.◌∷◌ c s) = elim (is_whitespace (code c)) [ true ↦ false | false ↦ true ]

trim_start_clean : (s : String) → begins_clean (trim_start s) ≡ true
unfolding trim_start
trim_start_clean String.[] = refl
trim_start_clean (String.◌∷◌ c s) = ground (arith, trim_start_clean s)

clean-trim_start : (s : String) → begins_clean s ≡ true → trim_start s ≡ s
unfolding trim_start
clean-trim_start String.[] h = refl
clean-trim_start (String.◌∷◌ c s) h = ground arith

trim_end_clean : (s : String) → begins_clean s ≡ true → begins_clean (trim_end s) ≡ true
unfolding trim_end
trim_end_clean String.[] h = refl
trim_end_clean (String.◌∷◌ c s) h = ground arith

trim_end-trim_end : (s : String) → trim_end (trim_end s) ≡ trim_end s
unfolding trim_end
trim_end-trim_end String.[] = refl
trim_end-trim_end (String.◌∷◌ c s) =
    elim (Bool-cases (is_empty (trim_end s) && is_whitespace (code c))) [
      | inl gone ↦ rw gone refl
      | inr kept ↦ rw kept (rw (trim_end-trim_end s) (rw kept refl))
    ]

trim-trim : (s : String) → trim (trim s) ≡ trim s
unfolding trim
trim-trim s =
    ap trim_end (
      clean-trim_start (trim_end (trim_start s))
        (trim_end_clean (trim_start s) (trim_start_clean s)))
    ∙ trim_end-trim_end (trim_start s)

check_alias_trims : (proposed name : String) → check_alias proposed ≡ ok name → trim proposed ≡ name
unfolding check_alias
check_alias_trims proposed name h = ground arith

-- The checks look at the trimmed name only.
check_alias-trim : (proposed : String) → check_alias (trim proposed) ≡ check_alias proposed
unfolding check_alias
check_alias-trim proposed = rw (trim-trim proposed) refl

-- A display name that `check_alias` returns is not empty, has at most 32 characters and no control
-- character, and is returned unchanged when it is proposed again.
pub check_alias-check_alias :
    (proposed name : String)
    → check_alias proposed ≡ ok name
    → (check_alias name ≡ ok name)
      × (is_empty name ≡ false)
      × (count_chars name ≤ max_alias)
      × (any_control name ≡ false)
unfolding check_alias
check_alias-check_alias proposed name h =
    let same = check_alias_trims proposed name h in
    (
      subst (λ x. check_alias x ≡ ok name) same (check_alias-trim proposed ∙ h),
      subst (λ x. is_empty x ≡ false) same (ground arith),
      subst (λ x. count_chars x ≤ max_alias) same (ground arith),
      subst (λ x. any_control x ≡ false) same (ground arith),
    )
