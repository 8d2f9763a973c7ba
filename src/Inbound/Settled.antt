-- ===== src/Inbound/Settled.antt =====
-- crates/hrc-storage/src/ordering.rs: when a message is held, when it is accepted, and how tables move.
use herdr_remote_channel.Prelude.{
  ℕ, String, ◌≡◌, refl, sym, Bool, true, false, not, ◌&&◌, ◌||◌, Option, none, some, List, [], ◌∷◌,
  ◌++◌, str_eq, eq_iff, eq_refl, arith, inl, inr, Bool-cases,
}
use herdr_remote_channel.Inbound.{InboxRow, HoldRow, ReceiptLink, Tables}
use herdr_remote_channel.Inbound.Queries.{any, filter}
use herdr_remote_channel.Inbound.Accept.{delete_hold, hold}

-- The message waits in the hold.
unfoldable pub is_held : String → Tables → Bool
is_held id t = any (λ row. str_eq row.message_id id) t.inbound_hold

abbrev pub has_arrival : Option ℕ → Bool
has_arrival none = false
has_arrival (some n) = true

-- An inbox row of the message that has an arrival number, or is that of a receipt, which gets none.
abbrev pub entered : String → InboxRow → Bool
entered id row =
    str_eq row.message_id id && (has_arrival row.arrival_sequence || str_eq row.kind "receipt")

-- The message is accepted: it has an arrival number, or it is a receipt that is stored.
unfoldable pub is_settled : String → Tables → Bool
is_settled id t =
    any (entered id) t.inbox || any (λ link. str_eq link.message_id id) t.inbound_receipt_link

-- An inbox row of the message with this disposition.
abbrev pub disposed : String → String → InboxRow → Bool
disposed disposition id row = str_eq row.message_id id && str_eq row.disposition disposition

-- What accepting and releasing does to the tables: no message is put on hold, no row of a receipt is
-- lost, what is accepted stays so, every disposition stays in the inbox, and a message leaves the
-- hold only when it is accepted.
pub record Moves (before after : Tables) : Type 0 where
  pub holds :
      (test : HoldRow → Bool)
      → any test after.inbound_hold ≡ true
      → any test before.inbound_hold ≡ true
  pub links :
      (test : ReceiptLink → Bool)
      → any test before.inbound_receipt_link ≡ true
      → any test after.inbound_receipt_link ≡ true
  pub stays : (id : String) → is_settled id before ≡ true → is_settled id after ≡ true
  pub dispositions :
      (disposition id : String)
      → any (disposed disposition id) before.inbox ≡ true
      → any (disposed disposition id) after.inbox ≡ true
  pub kept :
      (id : String) → is_held id before ≡ true → (is_held id after || is_settled id after) ≡ true

pub Moves-refl : (t : Tables) → Moves t t
Moves-refl t = record {
  holds = λ test h. h;
  links = λ test h. h;
  stays = λ id h. h;
  dispositions = λ d id h. h;
  kept = λ id h. ground arith;
}

-- The other tables do not matter.
pub other_tables :
    (a b : Tables)
    → a.inbox ≡ b.inbox
    → a.inbound_hold ≡ b.inbound_hold
    → a.inbound_receipt_link ≡ b.inbound_receipt_link
    → Moves a b
unfolding is_held is_settled
other_tables a b inbox hold links = record {
  holds = λ test h. rw hold h;
  links = λ test h. rw (sym links) h;
  stays = λ id h. rw (sym inbox, sym links) h;
  dispositions = λ d id h. rw (sym inbox) h;
  kept = λ id h. rw (sym hold) (ground arith);
}

pub Moves-trans : (a b c : Tables) → Moves a b → Moves b c → Moves a c
Moves-trans a b c first second = record {
  holds = λ test h. first.holds test (second.holds test h);
  links = λ test h. second.links test (first.links test h);
  stays = λ id h. second.stays id (first.stays id h);
  dispositions = λ d id h. second.dispositions d id (first.dispositions d id h);
  kept = λ id h. elim (Bool-cases (is_held id b)) [
    | inl waits ↦ second.kept id waits
    | inr gone ↦ ground (arith, first.kept id h, second.stays id (ground (arith, first.kept id h)))
  ];
}

any-filter :
    {A : Type 0} (test keep : A → Bool) (rows : List A)
    → any test (filter keep rows) ≡ true
    → any test rows ≡ true
any-filter test keep [] h = h
any-filter test keep (row ∷ rows) h = ground (arith, any-filter test keep rows)

pub any-append :
    {A : Type 0} (test : A → Bool) (rows : List A) (row : A)
    → any test (rows ++ (row ∷ [])) ≡ (any test rows || test row)
any-append test [] row = ground arith
any-append test (x ∷ rows) row = ground (arith, any-append test rows row)

held_filter :
    (id deleted : String) (rows : List HoldRow)
    → any
        (λ row. str_eq row.message_id id)
        (filter (λ row. not (str_eq row.message_id deleted)) rows)
      ≡ (any (λ row. str_eq row.message_id id) rows && not (str_eq id deleted))
held_filter id deleted [] = refl
held_filter id deleted (row ∷ rows) = ground (
  arith,
  held_filter id deleted rows,
  eq_iff row.message_id id,
  eq_iff row.message_id deleted,
  eq_iff id deleted,
)

-- What is deleted is no longer held.
pub delete_hold-is_held : (id : String) (t : Tables) → is_held id (delete_hold id t) ≡ false
unfolding is_held delete_hold
delete_hold-is_held id t = ground (arith, held_filter id id t.inbound_hold, eq_refl id)

-- Deleting the hold of an accepted message loses nothing.
pub delete_hold-Moves :
    (id : String) (t : Tables) → is_settled id t ≡ true → Moves t (delete_hold id t)
unfolding is_held is_settled delete_hold
delete_hold-Moves id t settled = record {
  holds = λ test h. any-filter test (λ row. not (str_eq row.message_id id)) t.inbound_hold h;
  links = λ test h. h;
  stays = λ other h. h;
  dispositions = λ d other h. h;
  kept = λ other h. elim (Bool-cases (str_eq other id)) [
    | inl same ↦ ground (arith, eq_iff other id)
    | inr different ↦ ground (arith, held_filter other id t.inbound_hold)
  ];
}
