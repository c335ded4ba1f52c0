-- ===== src/Credits/Balanced.antt =====
-- The balances against the minted total, under the writes of app/credits/ledger.py: the lazy grant, the
-- debit, the credit and the log entry.
use oldman_agent.Prelude.{
  ◌≤◌, ◌-◌, true, is_some, inl, inr, Option-cases, ℕ, ◌+◌, String, ◌≡◌, refl, Option, none, some,
  List, [], ◌∷◌, ◌++◌, arith, eq_iff, ◌==◌, if◌then◌else◌,
}
use oldman_agent.Exec.Rules.{wp_rules, Wp, Wp-bind, Wp-pure, Wp-gets}
use oldman_agent.Table.{
  find, find-append_some, select, sum, sum-append, IsKeyed, IsKeyed-append, IsKeyed-update,
  sum-update, is_some-find-update,
}
use oldman_agent.Books.{Books, BalanceRow, CreditsTransaction, applied, account, owned_by}
use oldman_agent.Books.Inserts.{insert_rules}
use oldman_agent.Audit.{total_balance, total_minted, is_mint}
use oldman_agent.Credits.{debited, credited, grant_order, grant_account, receipt, ensure_balance}

-- One row for each agent, and the balances sum up to what was minted.
pub record IsBalanced (s : Books) : Type 0 where
  pub keyed : IsKeyed (λ (r : BalanceRow). r.agent_id) s.balances
  pub conserved : total_balance s ≡ total_minted s

minted_append :
    (t : CreditsTransaction) (ts : List CreditsTransaction)
    → sum (λ u. u.amount) (select is_mint (ts ++ t ∷ []))
      ≡ sum (λ u. u.amount) (select is_mint ts) + (if is_mint t then t.amount else 0)
unfolding sum select
minted_append t [] = ground arith
minted_append t (u ∷ ts) = ground (arith, minted_append t ts)

-- The row that a query found, if any, holds `n`.
abbrev pub Holds : Option BalanceRow → ℕ → Type 0
Holds none n = ⊥
Holds (some r) n = r.balance ≡ n

abbrev opened : String → ℕ → ℕ → BalanceRow
opened a n now = record { agent_id = a; balance = n; last_updated = now }

find-opened :
    (a : String) (n now : ℕ) (rs : List BalanceRow)
    → find (λ r. r.agent_id == a) rs ≡ none
    → find (λ r. r.agent_id == a) (rs ++ opened a n now ∷ []) ≡ some (opened a n now)
unfolding find
find-opened a n now [] h = ground (arith, eq_iff a a)
find-opened a n now (r ∷ rs) h = ground (arith, find-opened a n now rs)

abbrev granted : String → ℕ → Books → Books
granted a grant s = record s {
  balances = s.balances ++ opened a grant s.clock ∷ [];
  drawn = s.drawn + 1;
  transactions =
      s.transactions ++ receipt (grant_order a grant) (s.fresh s.drawn) s.clock applied ∷ [];
}

-- What a first touch adds to the books keeps them balanced.
granted-IsBalanced :
    (a : String) (grant : ℕ) (s : Books)
    → IsBalanced s
    → account a s ≡ none
    → IsBalanced (granted a grant s)
unfolding total_balance total_minted sum
granted-IsBalanced a grant s h missing = record {
  keyed =
      IsKeyed-append (λ (r : BalanceRow). r.agent_id) (opened a grant s.clock) s.balances h.keyed
        missing;
  conserved = omega (
    arith,
    h.conserved,
    sum-append (λ (r : BalanceRow). r.balance) s.balances (opened a grant s.clock ∷ []),
    minted_append (receipt (grant_order a grant) (s.fresh s.drawn) s.clock applied) s.transactions,
  );
}

Holds-append :
    (b : String) (n : ℕ) (rs ys : List BalanceRow)
    → Holds (find (owned_by b) rs) n
    → Holds (find (owned_by b) (rs ++ ys)) n
Holds-append b n rs ys h = elim (Option-cases (find (owned_by b) rs)) [
  | inl e ↦ absurd (rw e at h)
  | inr (r, e) ↦ rw (find-append_some (owned_by b) r rs ys e) (rw e at h)
]

-- Accounts that are there keep their balances.
abbrev pub KeepsAccounts : Books → Books → Type 0
KeepsAccounts s s' = (b : String) (n : ℕ) → Holds (account b s) n → Holds (account b s') n

pub Wp-grant_account :
    (a : String) (grant : ℕ) (s : Books) (Q : ℕ → Books → Type 0)
    → Q grant (granted a grant s)
    → Wp (grant_account a grant) s Q
unfolding grant_account
Wp-grant_account a grant s Q h = search (wp_rules, insert_rules, h) depth 12

pub Wp-ensure_balance :
    (a : String) (grant : ℕ) (s : Books) (Q : ℕ → Books → Type 0)
    → IsBalanced s
    → ((n : ℕ) (s' : Books) → IsBalanced s' → Holds (account a s') n → KeepsAccounts s s' → Q n s')
    → Wp (ensure_balance a grant) s Q
unfolding ensure_balance
Wp-ensure_balance a grant s Q h k = Wp-bind _ _ s Q (
    Wp-gets _ s _ (elim (Option-cases (account a s)) [
      | inl missing ↦ rw missing (
          Wp-grant_account a grant s Q (
            k grant _ (granted-IsBalanced a grant s h missing)
              (rw (find-opened a grant s.clock s.balances missing) refl)
              (λ b n. Holds-append b n s.balances _)))
      | inr (r, e) ↦ rw e (Wp-pure _ s Q (k r.balance s h (rw e refl) (λ b n holds. holds)))
    ]))

pub sum-debited :
    (a : String) (amount now : ℕ) (s : Books) {n : ℕ}
    → IsKeyed (λ (r : BalanceRow). r.agent_id) s.balances
    → Holds (account a s) n
    → amount ≤ n
    → total_balance (debited a amount now s) + amount ≡ total_balance s
unfolding total_balance
sum-debited a amount now s keyed holds le = elim (Option-cases (account a s)) [
  | inl e ↦ absurd (rw e at holds)
  | inr (r, e) ↦
      let full = rw e at holds in
      omega (
        arith,
        full,
        sum-update (λ (r : BalanceRow). r.agent_id) a
            (λ r. record r { balance = r.balance - amount; last_updated = now }) (λ r. r.balance) r
            s.balances keyed e,
      )
]

pub sum-credited :
    (b : String) (amount now : ℕ) (s : Books)
    → IsKeyed (λ (r : BalanceRow). r.agent_id) s.balances
    → is_some (account b s) ≡ true
    → total_balance (credited b amount now s) ≡ total_balance s + amount
unfolding total_balance
sum-credited b amount now s keyed known = elim (Option-cases (account b s)) [
  | inl e ↦ cc
  | inr (r, e) ↦ omega (
    arith,
    sum-update (λ (r : BalanceRow). r.agent_id) b
        (λ r. record r { balance = r.balance + amount; last_updated = now }) (λ r. r.balance) r
        s.balances keyed e,
  )
]

pub IsKeyed-debited :
    (a : String) (amount now : ℕ) (s : Books)
    → IsKeyed (λ (r : BalanceRow). r.agent_id) s.balances
    → IsKeyed (λ (r : BalanceRow). r.agent_id) (debited a amount now s).balances
IsKeyed-debited a amount now s h =
    IsKeyed-update (λ (r : BalanceRow). r.agent_id) a _ (λ r. refl) s.balances h

pub IsKeyed-credited :
    (a : String) (amount now : ℕ) (s : Books)
    → IsKeyed (λ (r : BalanceRow). r.agent_id) s.balances
    → IsKeyed (λ (r : BalanceRow). r.agent_id) (credited a amount now s).balances
IsKeyed-credited a amount now s h =
    IsKeyed-update (λ (r : BalanceRow). r.agent_id) a _ (λ r. refl) s.balances h

pub known-debited :
    (a b : String) (amount now : ℕ) (s : Books)
    → is_some (account b (debited a amount now s)) ≡ is_some (account b s)
known-debited a b amount now s =
    is_some-find-update (λ (r : BalanceRow). r.agent_id) a _ (λ r. refl) b s.balances

-- A log entry that mints nothing leaves the minted total alone.
pub total_minted_logged :
    (t : CreditsTransaction) (s : Books)
    → total_minted (record s { transactions = s.transactions ++ t ∷ [] })
      ≡ total_minted s + (if is_mint t then t.amount else 0)
unfolding total_minted
total_minted_logged t s = minted_append t s.transactions
