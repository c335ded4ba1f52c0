-- ===== src/Credits/Conservation.antt =====
-- Conservation: what `transfer` of app/credits/ledger.py leaves is what app/credits/audit.py checks.
use oldman_agent.Prelude.{
  ◌+◌, ℕ, String, ◌≡◌, refl, true, is_some, Option, none, some, arith, ltb, inl, inr, Option-cases,
  Bool-cases,
}
use oldman_agent.Exec.{transaction}
use oldman_agent.Exec.Rules.{
  transaction_keeps, wp_rules, Wp, Wp-bind, Wp-pure, Wp-gets, Wp-raise_if,
}
use oldman_agent.Books.{Books, account}
use oldman_agent.Books.Inserts.{insert_rules, Wp-uuid4}
use oldman_agent.Audit.{total_balance, total_minted, audit_credits}
use oldman_agent.Credits.{Order, check_order, ensure_if_given, settle_order, transfer}
use oldman_agent.Credits.Balanced.{IsBalanced, Holds, KeepsAccounts, Wp-ensure_balance}
use oldman_agent.Credits.Settled.{settled-IsBalanced, Wp-apply_order}

pub Wp-check_order :
    (o : Order) (s : Books) (Q : Unit {0} → Books → Type 0) → Q tt s → Wp (check_order o) s Q
unfolding check_order
Wp-check_order o s Q h = Wp-bind _ _ s Q (
    Wp-raise_if _ _ s _ λ _. Wp-bind _ _ s Q (
      Wp-raise_if _ _ s _
        λ _. Wp-bind _ _ s Q (Wp-raise_if _ _ s _ λ _. Wp-raise_if _ _ s Q λ _. h)))

-- What is known of the sender when the funds are compared.
abbrev pub Sender : Option String → Option ℕ → Books → Type 0
Sender none none s = Unit
Sender (some a) (some n) s = Holds (account a s) n
Sender _ _ s = ⊥

pub Wp-ensure_sender :
    (from : Option String) (grant : ℕ) (s : Books) (Q : Option ℕ → Books → Type 0)
    → IsBalanced s
    → ((n : Option ℕ) (s' : Books) → IsBalanced s' → Sender from n s' → Q n s')
    → Wp (ensure_if_given from grant) s Q
Wp-ensure_sender none grant s Q h k = Wp-pure none s Q (k none s h tt)
Wp-ensure_sender (some a) grant s Q h k = Wp-bind _ _ s Q (
    Wp-ensure_balance a grant s _ h
      λ n s' h' holds _. Wp-pure (some n) s' Q (k (some n) s' h' holds))

is_some_of_Holds :
    (b : String) (n : ℕ) (s : Books) → Holds (account b s) n → is_some (account b s) ≡ true
is_some_of_Holds b n s h = elim (Option-cases (account b s)) [
  | inl e ↦ absurd (rw e at h)
  | inr (r, e) ↦ rw e
]

Sender-kept :
    (from : Option String) (n : Option ℕ) (s s' : Books)
    → KeepsAccounts s s'
    → Sender from n s
    → Sender from n s'
Sender-kept none none s s' keep h = tt
Sender-kept (some a) (some n) s s' keep h = keep a n h
Sender-kept none (some n) s s' keep h = h
Sender-kept (some a) none s s' keep h = h

settle_order-IsBalanced :
    (o : Order) (tx_id : String) (now : ℕ) (from : Option String) (n : Option ℕ) (b : String)
    (s : Books)
    → o.from_agent ≡ from
    → o.to_agent ≡ some b
    → IsBalanced s
    → Sender from n s
    → is_some (account b s) ≡ true
    → Wp (settle_order o tx_id now n from) s (λ _ s'. IsBalanced s')
unfolding settle_order
settle_order-IsBalanced o tx_id now none none b s ef et h sender known =
    Wp-apply_order o tx_id now s _ (settled-IsBalanced o tx_id now s none b ef et h known tt)
settle_order-IsBalanced o tx_id now (some a) (some n) b s ef et h sender known =
    elim (Bool-cases (ltb n o.amount)) [
      | inl short ↦ rw short (search (wp_rules, insert_rules))
      | inr funds ↦ rw funds (
          Wp-apply_order o tx_id now s _ (
            settled-IsBalanced o tx_id now s (some a) b ef et h known
              (n, sender, ground (arith, funds))))
    ]
settle_order-IsBalanced o tx_id now none (some n) b s ef et h sender known = absurd sender
settle_order-IsBalanced o tx_id now (some a) none b s ef et h sender known = absurd sender

Wp-ensure_receiver :
    (to : Option String) (b : String) (grant : ℕ) (s : Books) (Q : Option ℕ → Books → Type 0)
    → to ≡ some b
    → IsBalanced s
    → ((m : Option ℕ) (s' : Books)
        → IsBalanced s'
        → is_some (account b s') ≡ true
        → KeepsAccounts s s'
        → Q m s')
    → Wp (ensure_if_given to grant) s Q
Wp-ensure_receiver to b grant s Q et h k = rw et (
    Wp-bind _ _ s Q (
      Wp-ensure_balance b grant s _ h λ m s' h' holds keep.
        Wp-pure (some m) s' Q (k (some m) s' h' (is_some_of_Holds b m s' holds) keep)))

pub Wp-transfer :
    (o : Order) (grant : ℕ) (b : String) (s : Books)
    → o.to_agent ≡ some b
    → IsBalanced s
    → Wp (transfer o grant) s (λ _ s'. IsBalanced s')
unfolding transfer total_balance total_minted
Wp-transfer o grant b s et h = Wp-bind _ _ s _ (
    Wp-check_order o s _ (
      Wp-bind _ _ s _ (
        Wp-gets _ s _ (
          Wp-bind _ _ s _ (
            Wp-uuid4 s _ (
              Wp-bind _ _ _ _ (
                Wp-ensure_sender o.from_agent grant (record s { drawn = s.drawn + 1 }) _
                  (record { keyed = h.keyed; conserved = h.conserved })
                  λ n s1 h1 sender. Wp-bind _ _ s1 _ (
                    Wp-ensure_receiver o.to_agent b grant s1 _ et h1 λ m s2 h2 known keep.
                      settle_order-IsBalanced o _ _ o.from_agent n b s2 refl et h2
                        (Sender-kept o.from_agent n s1 s2 keep sender) known))))))))

-- From balanced books, a transfer that names a receiver leaves balanced books on every outcome: after
-- it finished, and after the caller rolled back because it raised. The audit then finds no mismatch.
pub transfer-IsBalanced :
    (o : Order) (grant : ℕ) (b : String) (s : Books)
    → o.to_agent ≡ some b
    → IsBalanced s
    → IsBalanced (transaction (transfer o grant) s).1
      × ((audit_credits (transaction (transfer o grant) s).1).balanced ≡ true)
unfolding audit_credits
transfer-IsBalanced o grant b s et h =
    let kept = transaction_keeps IsBalanced (transfer o grant) s h (Wp-transfer o grant b s et h) in
    (kept, ground (arith, kept.conserved))
