-- ===== src/Credits/Burn.antt =====
-- A transfer without a receiver: app/credits/ledger.py accepts it, and app/credits/audit.py does not
-- count what it destroys.
use oldman_agent.Prelude.{
  ℕ, ◌+◌, ◌≤◌, String, ◌≡◌, refl, false, Option, none, some, arith, ltb, inl, inr, Bool-cases,
}
use oldman_agent.Exec.Rules.{wp_rules, Wp, Wp-bind, Wp-pure, Wp-gets}
use oldman_agent.Books.{Books, account, applied}
use oldman_agent.Books.Inserts.{insert_rules, Wp-uuid4}
use oldman_agent.Audit.{total_balance, total_minted, audit_credits}
use oldman_agent.Credits.{Order, receipt, settle_order, transfer, ensure_if_given}
use oldman_agent.Credits.Balanced.{IsBalanced, Holds, sum-debited, total_minted_logged}
use oldman_agent.Credits.Settled.{settled, Wp-apply_order}
use oldman_agent.Credits.Conservation.{Wp-check_order, Wp-ensure_sender, Sender}

-- The minted total is above the balances by `amount`, and the audit says so.
abbrev pub IsShort : ℕ → Books → Type 0
IsShort amount s =
    (total_balance s + amount ≡ total_minted s) × ((audit_credits s).balanced ≡ false)

sum-burnt :
    (o : Order) (tx_id : String) (now : ℕ) (a : String) (n : ℕ) (s : Books)
    → o.from_agent ≡ some a
    → o.to_agent ≡ none
    → IsBalanced s
    → Holds (account a s) n
    → o.amount ≤ n
    → total_balance (settled o tx_id now s) + o.amount ≡ total_minted (settled o tx_id now s)
unfolding total_minted total_balance
sum-burnt o tx_id now a n s ef et h holds le =
    rw (ef, et)
      (ground (
        arith,
        h.conserved,
        ef,
        sum-debited a o.amount now s h.keyed holds le,
        total_minted_logged (receipt o tx_id now applied) s,
      ))

IsShort-intro :
    (amount : ℕ) (s : Books)
    → 1 ≤ amount
    → total_balance s + amount ≡ total_minted s
    → IsShort amount s
unfolding audit_credits
IsShort-intro amount s positive short = (short, ground (arith, short, positive))

Wp-ensure_nobody :
    (to : Option String) (grant : ℕ) (s : Books) (Q : Option ℕ → Books → Type 0)
    → to ≡ none
    → Q none s
    → Wp (ensure_if_given to grant) s Q
Wp-ensure_nobody none grant s Q e h = Wp-pure none s Q h
Wp-ensure_nobody (some b) grant s Q e h = absurd (ground arith)

settle_order-IsShort :
    (o : Order) (tx_id : String) (now : ℕ) (from : Option String) (n : Option ℕ) (a : String)
    (s : Books)
    → o.from_agent ≡ from
    → from ≡ some a
    → o.to_agent ≡ none
    → IsBalanced s
    → Sender from n s
    → 1 ≤ o.amount
    → Wp (settle_order o tx_id now n from) s (λ _ s'. IsShort o.amount s')
unfolding settle_order
settle_order-IsShort o tx_id now none none a s ef e et h sender pos = absurd (ground arith)
settle_order-IsShort o tx_id now (some b) (some n) a s ef e et h sender pos =
    elim (Bool-cases (ltb n o.amount)) [
      | inl short ↦ rw short (search (wp_rules, insert_rules))
      | inr funds ↦ rw funds (
          Wp-apply_order o tx_id now s _ (
            IsShort-intro _ _ pos
              (sum-burnt o tx_id now b n s ef et h sender (ground (arith, funds)))))
    ]
settle_order-IsShort o tx_id now none (some n) a s ef e et h sender pos = absurd sender
settle_order-IsShort o tx_id now (some b) none a s ef e et h sender pos = absurd sender

-- From balanced books, a transfer of a positive amount from an agent to nobody that finishes leaves
-- balances that are short of the minted total by the amount, and the audit reports a mismatch.
pub transfer-burns :
    (o : Order) (grant : ℕ) (a : String) (s : Books)
    → o.from_agent ≡ some a
    → o.to_agent ≡ none
    → 1 ≤ o.amount
    → IsBalanced s
    → Wp (transfer o grant) s (λ _ s'. IsShort o.amount s')
unfolding transfer total_balance total_minted
transfer-burns o grant a s ef et positive h = Wp-bind _ _ s _ (
    Wp-check_order o s _ (
      Wp-bind _ _ s _ (
        Wp-gets _ s _ (
          Wp-bind _ _ s _ (
            Wp-uuid4 s _ (
              Wp-bind _ _ _ _ (
                Wp-ensure_sender o.from_agent grant (record s { drawn = s.drawn + 1 }) _
                  (record { keyed = h.keyed; conserved = h.conserved })
                  λ n s1 h1 sender. Wp-bind _ _ s1 _ (
                    Wp-ensure_nobody o.to_agent grant s1 _ et (
                      settle_order-IsShort o _ _ o.from_agent n a s1 refl ef et h1 sender
                        positive)))))))))
