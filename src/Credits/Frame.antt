-- ===== src/Credits/Frame.antt =====
-- What `transfer` leaves alone, and the entry that it logs.
use oldman_agent.Prelude.{
  ℕ, ◌+◌, String, ◌≡◌, refl, ◌∙◌, inl, inr, Bool, true, is_some, Option, none, some, List, [], ◌∷◌,
  ◌++◌, arith, Option-cases, Bool-cases, ltb,
}
use oldman_agent.Exec.Rules.{wp_rules, Wp, Wp-bind, Wp-pure, Wp-gets, Wp-conj}
use oldman_agent.Table.{find}
use oldman_agent.Books.{Books, CreditsTransaction, applied, account}
use oldman_agent.Books.Inserts.{insert_rules, Wp-uuid4}
use oldman_agent.Credits.{Order, receipt, ensure_balance, ensure_if_given, settle_order, transfer}
use oldman_agent.Credits.Balanced.{IsBalanced, Wp-grant_account}
use oldman_agent.Credits.Settled.{Wp-apply_order, debited_if_given, credited_if_given, settled}
use oldman_agent.Credits.Conservation.{Wp-check_order, Wp-transfer}

-- The tables that payments leave alone, and the clock.
pub record Same (s s' : Books) : Type 0 where
  pub escrows : s'.escrows ≡ s.escrows
  pub invoices : s'.invoices ≡ s.invoices
  pub claims : s'.claims ≡ s.claims
  pub clock : s'.clock ≡ s.clock
  pub fresh : s'.fresh ≡ s.fresh

Same-trans : (s t u : Books) → Same s t → Same t u → Same s u
Same-trans s t u h k = record {
  escrows = k.escrows ∙ h.escrows;
  invoices = k.invoices ∙ h.invoices;
  claims = k.claims ∙ h.claims;
  clock = k.clock ∙ h.clock;
  fresh = k.fresh ∙ h.fresh;
}

Same-refl : (s : Books) → Same s s
Same-refl s = record { escrows = refl; invoices = refl; claims = refl; clock = refl; fresh = refl }

Wp-ensure_same :
    (a : String) (grant : ℕ) (s : Books) (Q : ℕ → Books → Type 0)
    → ((n : ℕ) (s' : Books) → Same s s' → Q n s')
    → Wp (ensure_balance a grant) s Q
unfolding ensure_balance
Wp-ensure_same a grant s Q k = Wp-bind _ _ s Q (
    Wp-gets _ s _ (elim (Option-cases (account a s)) [
      | inl missing ↦ rw missing (
          Wp-grant_account a grant s Q (
            k grant _ (record {
              escrows = refl;
              invoices = refl;
              claims = refl;
              clock = refl;
              fresh = refl;
            })))
      | inr (r, e) ↦ rw e (Wp-pure _ s Q (k r.balance s (Same-refl s)))
    ]))

Wp-ensure_given_same :
    (a : Option String) (grant : ℕ) (s : Books) (Q : Option ℕ → Books → Type 0)
    → ((n : Option ℕ) (s' : Books) → Same s s' → Q n s')
    → Wp (ensure_if_given a grant) s Q
Wp-ensure_given_same none grant s Q k = Wp-pure none s Q (k none s (Same-refl s))
Wp-ensure_given_same (some a) grant s Q k =
    Wp-bind _ _ s Q (Wp-ensure_same a grant s _ λ n s' h. Wp-pure (some n) s' Q (k (some n) s' h))

Same-debited : (a : Option String) (x now : ℕ) (s : Books) → Same s (debited_if_given a x now s)
Same-debited none x now s = Same-refl s
Same-debited (some a) x now s = record {
  escrows = refl;
  invoices = refl;
  claims = refl;
  clock = refl;
  fresh = refl;
}

Same-credited : (a : Option String) (x now : ℕ) (s : Books) → Same s (credited_if_given a x now s)
Same-credited none x now s = Same-refl s
Same-credited (some a) x now s = record {
  escrows = refl;
  invoices = refl;
  claims = refl;
  clock = refl;
  fresh = refl;
}

Same-logged :
    (s t : Books) (ts : List CreditsTransaction)
    → Same s t
    → Same s (record t { transactions = ts })
Same-logged s t ts h = record {
  escrows = h.escrows;
  invoices = h.invoices;
  claims = h.claims;
  clock = h.clock;
  fresh = h.fresh;
}

Same-settled : (o : Order) (tx_id : String) (now : ℕ) (s : Books) → Same s (settled o tx_id now s)
Same-settled o tx_id now s = Same-logged s _ _ (
    Same-trans s _ _ (Same-debited o.from_agent o.amount now s)
      (Same-credited o.to_agent o.amount now _))

find-last :
    (p : CreditsTransaction → Bool) (ts : List CreditsTransaction) (t : CreditsTransaction)
    → p t ≡ true
    → is_some (find p (ts ++ t ∷ [])) ≡ true
unfolding find
find-last p [] t h = ground arith
find-last p (x ∷ ts) t h = ground (arith, find-last p ts t)

-- A finished payment: what stayed, the entry that was logged, and the books balanced as before.
pub record Paid (o : Order) (tx : CreditsTransaction) (s s' : Books) : Type 0 where
  pub same : Same s s'
  pub tx_lem : tx ≡ receipt o (s.fresh s.drawn) s.clock applied
  pub logged :
      (p : CreditsTransaction → Bool) → p tx ≡ true → is_some (find p s'.transactions) ≡ true

settle-Paid :
    (o : Order) (n : Option ℕ) (from : Option String) (s s1 : Books)
    → Same s s1
    → Wp (settle_order o (s.fresh s.drawn) s.clock n from) s1 (λ tx s'. Paid o tx s s')
unfolding settle_order
settle-Paid o n from s s1 h = cases n from
  where
    done :
        Paid o
          (receipt o (s.fresh s.drawn) s.clock applied)
          s
          (settled o (s.fresh s.drawn) s.clock s1)
    done = record {
      same = Same-trans s s1 _ h (Same-settled o (s.fresh s.drawn) s.clock s1);
      tx_lem = refl;
      logged = λ p e. find-last p _ _ e;
    }

    cases :
        (n : Option ℕ) (from : Option String)
        → Wp (settle_order o (s.fresh s.drawn) s.clock n from) s1 (λ tx s'. Paid o tx s s')
    cases none from = Wp-apply_order o _ _ s1 _ done
    cases (some n) none = Wp-apply_order o _ _ s1 _ done
    cases (some n) (some a) = elim (Bool-cases (ltb n o.amount)) [
      | inl short ↦ rw short (search (wp_rules, insert_rules))
      | inr funds ↦ rw funds (Wp-apply_order o _ _ s1 _ done)
    ]

pub transfer-Paid :
    (o : Order) (grant : ℕ) (s : Books) → Wp (transfer o grant) s (λ tx s'. Paid o tx s s')
unfolding transfer
transfer-Paid o grant s = Wp-bind _ _ s _ (
    Wp-check_order o s _ (
      Wp-bind _ _ s _ (
        Wp-gets _ s _ (
          Wp-bind _ _ s _ (
            Wp-uuid4 s _ (
              Wp-bind _ _ _ _ (
                Wp-ensure_given_same o.from_agent grant (record s { drawn = s.drawn + 1 }) _
                  λ n s1 h1. Wp-bind _ _ s1 _ (
                    Wp-ensure_given_same o.to_agent grant s1 _ λ m s2 h2.
                      settle-Paid o n o.from_agent s s2 (
                        Same-trans s _ _
                          (record {
                            escrows = h1.escrows;
                            invoices = h1.invoices;
                            claims = h1.claims;
                            clock = h1.clock;
                            fresh = h1.fresh;
                          })
                          h2)))))))))

-- Both at once, for a payment to `b` from balanced books.
pub transfer-Paid-IsBalanced :
    (o : Order) (grant : ℕ) (b : String) (s : Books)
    → o.to_agent ≡ some b
    → IsBalanced s
    → Wp (transfer o grant) s (λ tx s'. Paid o tx s s' × IsBalanced s')
transfer-Paid-IsBalanced o grant b s et h =
    Wp-conj _ s (transfer-Paid o grant s) (Wp-transfer o grant b s et h)
