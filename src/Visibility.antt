-- ===== src/Visibility.antt =====
-- crates/hrc-core/src/visibility.rs: a repository is made public only after every consequence was
-- shown and the phrase was typed.
use Prim.Native.String.{◌++◌ as join}
use herdr_remote_channel.Prelude.{
  String, Bool, true, false, not, ◌||◌, List, [], ◌∷◌, str_eq, if◌then◌else◌,
}
use herdr_remote_channel.Errors.{Result, ok, err}
use herdr_remote_channel.Alias.{trim}

pub data PublicDisclosure : Type 0 where
  permanent_ciphertext commit_timing pusher_identities approximate_object_sizes : PublicDisclosure
  membership_counts roster_change_timing future_cryptographic_risk : PublicDisclosure

-- `PublicDisclosure::ALL`.
abbrev pub all_disclosures : List PublicDisclosure
all_disclosures =
    permanent_ciphertext ∷ commit_timing ∷ pusher_identities ∷ approximate_object_sizes
    ∷ membership_counts ∷ roster_change_timing ∷ future_cryptographic_risk ∷ []

-- The derived `==`.
unfoldable pub same_disclosure : PublicDisclosure → PublicDisclosure → Bool
same_disclosure permanent_ciphertext permanent_ciphertext = true
same_disclosure commit_timing commit_timing = true
same_disclosure pusher_identities pusher_identities = true
same_disclosure approximate_object_sizes approximate_object_sizes = true
same_disclosure membership_counts membership_counts = true
same_disclosure roster_change_timing roster_change_timing = true
same_disclosure future_cryptographic_risk future_cryptographic_risk = true
same_disclosure _ _ = false

-- `shown.contains(disclosure)`.
unfoldable pub was_shown : List PublicDisclosure → PublicDisclosure → Bool
unfolding same_disclosure
was_shown [] d = false
was_shown (x ∷ shown) d = same_disclosure x d || was_shown shown d

-- `ALL.into_iter().filter(|disclosure| !shown.contains(disclosure))`.
unfoldable pub missing_from : List PublicDisclosure → List PublicDisclosure → List PublicDisclosure
unfolding was_shown
missing_from shown [] = []
missing_from shown (d ∷ ds) =
    if not (was_shown shown d) then d ∷ missing_from shown ds else missing_from shown ds

unfoldable pub phrase : String → String
phrase channel_local_name = join "make " (join channel_local_name " public")

unfoldable pub is_satisfied_by : String → String → Bool
unfolding phrase trim
is_satisfied_by channel_local_name typed = str_eq (trim typed) (phrase channel_local_name)

pub record ConfirmedPublication : Type 0 where
  pub channel_local_name : String
  pub confirmed_by : String

pub data RefusedPublication : Type 0 where
  disclosure_incomplete : List PublicDisclosure → RefusedPublication
  phrase_not_typed : String → RefusedPublication

abbrev check_phrase : String → String → String → Result RefusedPublication ConfirmedPublication
check_phrase name typed confirmed_by =
    if is_satisfied_by name typed
    then ok (record { channel_local_name = name; confirmed_by = confirmed_by })
    else err (phrase_not_typed (phrase name))

abbrev refuse_missing :
    List PublicDisclosure
    → Result RefusedPublication ConfirmedPublication
    → Result RefusedPublication ConfirmedPublication
refuse_missing [] confirmed = confirmed
refuse_missing (d ∷ missing) confirmed = err (disclosure_incomplete (d ∷ missing))

-- `ConfirmedPublication::new`.
unfoldable pub confirm_publication :
    String
    → List PublicDisclosure
    → String
    → String
    → Result RefusedPublication ConfirmedPublication
unfolding missing_from is_satisfied_by phrase
confirm_publication name shown typed confirmed_by =
    refuse_missing (missing_from shown all_disclosures) (check_phrase name typed confirmed_by)
