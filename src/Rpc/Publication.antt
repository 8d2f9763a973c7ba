-- ===== src/Rpc/Publication.antt =====
-- crates/hrc-core/src/rpc.rs and visibility.rs: a repository is made public only through both gates.
use herdr_remote_channel.Rpc.Trusted.{
  dispatch_trusted, publish, publication_reason, after_broker, Session,
}
use herdr_remote_channel.Rpc.{done, TrustedResponse, make_repository_public, Broker}
use herdr_remote_channel.Prelude.{refl, ◌≡◌, String, true, List, [], eq_iff, arith}
use herdr_remote_channel.Errors.{
  map_err_ok, try_then_ok, map_err, err, Result, CoreError, ProtocolError, ok,
}
use herdr_remote_channel.Visibility.{
  PublicDisclosure, permanent_ciphertext, commit_timing, pusher_identities,
  approximate_object_sizes, membership_counts, roster_change_timing, future_cryptographic_risk,
  all_disclosures, was_shown, missing_from, phrase, is_satisfied_by, ConfirmedPublication,
  confirm_publication,
}
use herdr_remote_channel.Alias.{trim}

-- Every consequence that there is was shown.
abbrev pub AllShown : List PublicDisclosure → Type 0
AllShown shown = (d : PublicDisclosure) → was_shown shown d ≡ true

none_missing :
    (shown : List PublicDisclosure) → missing_from shown all_disclosures ≡ [] → AllShown shown
unfolding missing_from
none_missing shown h permanent_ciphertext = ground arith
none_missing shown h commit_timing = ground arith
none_missing shown h pusher_identities = ground arith
none_missing shown h approximate_object_sizes = ground arith
none_missing shown h membership_counts = ground arith
none_missing shown h roster_change_timing = ground arith
none_missing shown h future_cryptographic_risk = ground arith

-- What a confirmed publication establishes.
pub record Confirmed (name : String) (shown : List PublicDisclosure) (typed confirmed_by : String)
    (c : ConfirmedPublication) : Type 0 where
  pub all_shown : AllShown shown
  pub typed_phrase : trim typed ≡ phrase name
  pub of_channel : c.channel_local_name ≡ name
  pub by_user : c.confirmed_by ≡ confirmed_by

confirm_publication-Confirmed :
    (name : String) (shown : List PublicDisclosure) (typed confirmed_by : String)
    (c : ConfirmedPublication)
    → confirm_publication name shown typed confirmed_by ≡ ok c
    → Confirmed name shown typed confirmed_by c
unfolding confirm_publication is_satisfied_by
confirm_publication-Confirmed name shown typed confirmed_by c h = record {
  all_shown = none_missing shown (ground arith);
  typed_phrase = ground (arith, eq_iff (trim typed) (phrase name));
  of_channel = ground arith;
  by_user = ground arith;
}

module _ (sha256 : String → String) {S : Type 0} (b : Broker S) where
  -- What stands behind a request to make the repository public that succeeds.
  pub record MadePublic (shown : List PublicDisclosure) (typed : String) (st st' : Session S)
      : Type 0 where
    pub name : String
    pub is_channel : b.publication_channel_name st.broker ≡ ok name
    pub publication : ConfirmedPublication
    pub confirmed : Confirmed name shown typed (b.local_user st.broker) publication
    pub made : b.publish_repository publication st.broker ≡ (ok tt, st'.broker)

  made_by_broker :
      (st : Session S) (r : Result CoreError (Unit {0}) × S) (response : TrustedResponse)
      → (after_broker sha256 b st r done).0 ≡ ok response
      → r ≡ (ok tt, (after_broker sha256 b st r done).1.broker)
  made_by_broker st (ok tt, s) response h = refl
  made_by_broker st (err e, s) response h = cc

  -- The repository is made public only when each of the seven consequences was shown and the phrase
  -- for the broker's channel was typed, spaces around it aside; the broker then publishes that channel
  -- in the name of the local user.
  pub dispatch_trusted-MadePublic :
      (drawn : Result ProtocolError String) (shown : List PublicDisclosure) (typed now : String)
      (st : Session S) (response : TrustedResponse)
      → (dispatch_trusted sha256 b drawn (make_repository_public shown typed) now st).0
        ≡ ok response
      → MadePublic shown typed st
          ((dispatch_trusted sha256 b drawn (make_repository_public shown typed) now st).1)
  unfolding dispatch_trusted publish
  dispatch_trusted-MadePublic drawn shown typed now st response h =
      try_then_ok (MadePublic shown typed st) (b.publication_channel_name st.broker) st _ response
        (λ name is_channel h2.
          try_then_ok (MadePublic shown typed st)
            (map_err publication_reason
              (confirm_publication name shown typed (b.local_user st.broker)))
            st _ response
            (λ publication passed h3. record {
              name = name;
              is_channel = is_channel;
              publication = publication;
              confirmed =
                  confirm_publication-Confirmed name shown typed (b.local_user st.broker)
                    publication
                    (map_err_ok publication_reason
                      (confirm_publication name shown typed (b.local_user st.broker)) publication
                      passed);
              made = made_by_broker st (b.publish_repository publication st.broker) response h3;
            })
            h2)
        h
