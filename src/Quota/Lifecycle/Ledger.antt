-- ===== src/Quota/Lifecycle/Ledger.antt =====
-- The abstract view of a quota controller: what its entries alone say of the tokens and of the open
-- requests. A storage is balanced where the pool's running totals and the unresolved counters are
-- those of the entries, so that no `Math.max(0, …)` of the lifecycle ever cuts a difference short.
pub mod Preserved
use octg.Common.{
  ℕ, ◌+◌, ◌-◌, ◌≤◌, ◌≡◌, refl, String, Option, none, some, arith, Dict, lookup, insert, sum_of,
  sum_of-nil, sum_of-insert_old, sum_of-insert_new, le-sum_of,
}
use octg.Shared.Types.{
  RequestState, reserved, settled, uncertain, reconciled, released, PoolState, RequestEntry,
}
use octg.Quota.Store.{UnresolvedState, Storage, empty_storage, load_unresolved}

abbrev reserved_part : RequestState → ℕ → ℕ
reserved_part reserved n = n
reserved_part _ n = 0

abbrev uncertain_part : RequestState → ℕ → ℕ
uncertain_part uncertain n = n
uncertain_part _ n = 0

abbrev or_zero : Option ℕ → ℕ
or_zero none = 0
or_zero (some n) = n

-- A settled request costs what it used, a reconciled one what it had reserved.
abbrev confirmed_part : RequestState → ℕ → ℕ → ℕ
confirmed_part settled actual n = actual
confirmed_part reconciled actual n = n
confirmed_part _ actual n = 0

abbrev pub entry_reserved : RequestEntry → ℕ
entry_reserved e = reserved_part e.state e.reserved_tokens

abbrev pub entry_uncertain : RequestEntry → ℕ
entry_uncertain e = uncertain_part e.state e.reserved_tokens

abbrev pub entry_confirmed : RequestEntry → ℕ
entry_confirmed e = confirmed_part e.state (or_zero e.actual_tokens) e.reserved_tokens

abbrev pub one_if_reserved : RequestEntry → ℕ
one_if_reserved e = reserved_part e.state 1

abbrev pub one_if_uncertain : RequestEntry → ℕ
one_if_uncertain e = uncertain_part e.state 1

pub record Ledger : Type 0 where
  pub confirmed : ℕ
  pub reserved : ℕ
  pub uncertain : ℕ
  pub reserved_count : ℕ
  pub uncertain_count : ℕ

-- What the entries say.
abbrev pub tally : Dict RequestEntry → Ledger
tally es = record {
  confirmed = sum_of entry_confirmed es;
  reserved = sum_of entry_reserved es;
  uncertain = sum_of entry_uncertain es;
  reserved_count = sum_of one_if_reserved es;
  uncertain_count = sum_of one_if_uncertain es;
}

abbrev pool_number : (PoolState → ℕ) → Option PoolState → ℕ
pool_number f none = 0
pool_number f (some p) = f p

-- What the stored totals say.
abbrev pub books : Storage → Ledger
books s = record {
  confirmed = pool_number (λ p. p.confirmed_tokens) s.pool;
  reserved = pool_number (λ p. p.reserved_tokens) s.pool;
  uncertain = pool_number (λ p. p.uncertain_tokens) s.pool;
  reserved_count = (load_unresolved s).reserved_count;
  uncertain_count = (load_unresolved s).uncertain_count;
}

pub record Agree (a b : Ledger) : Type 0 where
  pub confirmed_ok : a.confirmed ≡ b.confirmed
  pub reserved_ok : a.reserved ≡ b.reserved
  pub uncertain_ok : a.uncertain ≡ b.uncertain
  pub reserved_count_ok : a.reserved_count ≡ b.reserved_count
  pub uncertain_count_ok : a.uncertain_count ≡ b.uncertain_count

abbrev pub IsBalanced : Storage → Type 0
IsBalanced s = Agree (books s) (tally s.entries)

abbrev pub amounts : RequestEntry → Ledger
amounts e = record {
  confirmed = entry_confirmed e;
  reserved = entry_reserved e;
  uncertain = entry_uncertain e;
  reserved_count = one_if_reserved e;
  uncertain_count = one_if_uncertain e;
}

infixl 65 ◌⊞◌
abbrev pub ◌⊞◌ : Ledger → Ledger → Ledger
a ⊞ b = record {
  confirmed = a.confirmed + b.confirmed;
  reserved = a.reserved + b.reserved;
  uncertain = a.uncertain + b.uncertain;
  reserved_count = a.reserved_count + b.reserved_count;
  uncertain_count = a.uncertain_count + b.uncertain_count;
}

-- Replacing an entry exchanges its amounts in the tally.
pub tally-insert_old :
    (id : String) (e' e : RequestEntry) (es : Dict RequestEntry)
    → lookup id es ≡ some e
    → Agree (tally (insert id e' es) ⊞ amounts e) (tally es ⊞ amounts e')
tally-insert_old id e' e es h = record {
  confirmed_ok = sum_of-insert_old entry_confirmed id e' e es h;
  reserved_ok = sum_of-insert_old entry_reserved id e' e es h;
  uncertain_ok = sum_of-insert_old entry_uncertain id e' e es h;
  reserved_count_ok = sum_of-insert_old one_if_reserved id e' e es h;
  uncertain_count_ok = sum_of-insert_old one_if_uncertain id e' e es h;
}

pub tally-insert_new :
    (id : String) (e : RequestEntry) (es : Dict RequestEntry)
    → lookup id es ≡ none
    → Agree (tally (insert id e es)) (tally es ⊞ amounts e)
tally-insert_new id e es h = record {
  confirmed_ok = sum_of-insert_new entry_confirmed id e es h;
  reserved_ok = sum_of-insert_new entry_reserved id e es h;
  uncertain_ok = sum_of-insert_new entry_uncertain id e es h;
  reserved_count_ok = sum_of-insert_new one_if_reserved id e es h;
  uncertain_count_ok = sum_of-insert_new one_if_uncertain id e es h;
}

-- An entry's amounts are part of the tally.
pub record Covers (a b : Ledger) : Type 0 where
  pub confirmed_le : b.confirmed ≤ a.confirmed
  pub reserved_le : b.reserved ≤ a.reserved
  pub uncertain_le : b.uncertain ≤ a.uncertain
  pub reserved_count_le : b.reserved_count ≤ a.reserved_count
  pub uncertain_count_le : b.uncertain_count ≤ a.uncertain_count

pub tally-Covers :
    (id : String) (e : RequestEntry) (es : Dict RequestEntry)
    → lookup id es ≡ some e
    → Covers (tally es) (amounts e)
tally-Covers id e es h = record {
  confirmed_le = le-sum_of entry_confirmed id e es h;
  reserved_le = le-sum_of entry_reserved id e es h;
  uncertain_le = le-sum_of entry_uncertain id e es h;
  reserved_count_le = le-sum_of one_if_reserved id e es h;
  uncertain_count_le = le-sum_of one_if_uncertain id e es h;
}

pub empty-IsBalanced : IsBalanced empty_storage
empty-IsBalanced = simp sum_of-nil (omega arith)

-- A storage whose entry was exchanged is balanced if the books moved by the same amounts.
pub exchange :
    (id : String) (e e' : RequestEntry) (s t : Storage)
    → lookup id s.entries ≡ some e
    → IsBalanced s
    → t.entries ≡ insert id e' s.entries
    → Agree (books t ⊞ amounts e) (books s ⊞ amounts e')
    → IsBalanced t
exchange id e e' s t found b same_entries moved =
    rw same_entries (omega (arith, tally-insert_old id e' e s.entries found))

-- Likewise where the entry is new.
pub enter :
    (id : String) (e : RequestEntry) (s t : Storage)
    → lookup id s.entries ≡ none
    → IsBalanced s
    → t.entries ≡ insert id e s.entries
    → Agree (books t) (books s ⊞ amounts e)
    → IsBalanced t
enter id e s t absent b same_entries moved =
    rw same_entries (omega (arith, tally-insert_new id e s.entries absent))
