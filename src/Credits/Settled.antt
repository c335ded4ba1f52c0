-- ===== src/Credits/Settled.antt =====
-- The state that a covered transfer leaves, and that it is balanced.
use oldman_agent.Prelude.{
  ◌≤◌, ◌∙◌, true, is_some, ℕ, String, ◌≡◌, Option, none, some, [], ◌∷◌, ◌++◌, arith,
}
use oldman_agent.Exec.Rules.{wp_rules, Wp, Wp-bind, Wp-pure, Wp-gets, Wp-raise_if, Wp-modify}
use oldman_agent.Books.{Books, CreditsTransaction, applied, account}
use oldman_agent.Books.Inserts.{insert_rules}
use oldman_agent.Audit.{total_balance, total_minted}
use oldman_agent.Credits.{
  Order, debited, credited, receipt, debit, credit, debit_if_given, credit_if_given, apply_order,
}
use oldman_agent.Credits.Balanced.{
  IsBalanced, Holds, sum-debited, sum-credited, IsKeyed-debited, IsKeyed-credited, known-debited,
  total_minted_logged,
}

abbrev pub debited_if_given : Option String → ℕ → ℕ → Books → Books
debited_if_given none amount now s = s
debited_if_given (some a) amount now s = debited a amount now s

abbrev pub credited_if_given : Option String → ℕ → ℕ → Books → Books
credited_if_given none amount now s = s
credited_if_given (some a) amount now s = credited a amount now s

-- The books after the two updates of `transfer` and its log entry.
abbrev pub settled : Order → String → ℕ → Books → Books
settled o tx_id now s =
    let moved =
      credited_if_given o.to_agent o.amount now (debited_if_given o.from_agent o.amount now s) in
    record moved { transactions = moved.transactions ++ receipt o tx_id now applied ∷ [] }

Wp-debit :
    (a : String) (amount now : ℕ) (s : Books) (Q : Unit {0} → Books → Type 0)
    → Q tt (debited a amount now s)
    → Wp (debit a amount now) s Q
unfolding debit
Wp-debit a amount now s Q h =
    Wp-bind _ _ s Q (Wp-gets _ s _ (Wp-bind _ _ s Q (Wp-raise_if _ _ s _ λ _. Wp-modify _ s Q h)))

Wp-credit :
    (a : String) (amount now : ℕ) (s : Books) (Q : Unit {0} → Books → Type 0)
    → Q tt (credited a amount now s)
    → Wp (credit a amount now) s Q
unfolding credit
Wp-credit a amount now s Q h =
    Wp-bind _ _ s Q (Wp-gets _ s _ (Wp-bind _ _ s Q (Wp-raise_if _ _ s _ λ _. Wp-modify _ s Q h)))

Wp-debit_if_given :
    (a : Option String) (amount now : ℕ) (s : Books) (Q : Unit {0} → Books → Type 0)
    → Q tt (debited_if_given a amount now s)
    → Wp (debit_if_given a amount now) s Q
Wp-debit_if_given none amount now s Q h = Wp-pure _ s Q h
Wp-debit_if_given (some a) amount now s Q h = Wp-debit a amount now s Q h

Wp-credit_if_given :
    (a : Option String) (amount now : ℕ) (s : Books) (Q : Unit {0} → Books → Type 0)
    → Q tt (credited_if_given a amount now s)
    → Wp (credit_if_given a amount now) s Q
Wp-credit_if_given none amount now s Q h = Wp-pure _ s Q h
Wp-credit_if_given (some a) amount now s Q h = Wp-credit a amount now s Q h

pub Wp-apply_order :
    (o : Order) (tx_id : String) (now : ℕ) (s : Books) (Q : CreditsTransaction → Books → Type 0)
    → Q (receipt o tx_id now applied) (settled o tx_id now s)
    → Wp (apply_order o tx_id now) s Q
unfolding apply_order
Wp-apply_order o tx_id now s Q h = Wp-bind _ _ s Q (
    Wp-debit_if_given o.from_agent _ _ s _ (
      Wp-bind _ _ _ Q (Wp-credit_if_given o.to_agent _ _ _ _ (search (wp_rules, insert_rules, h)))))

-- The sender, if there is one, holds at least the amount.
abbrev pub Covered : Option String → ℕ → Books → Type 0
Covered none amount s = Unit
Covered (some a) amount s = (n : ℕ) × Holds (account a s) n × (amount ≤ n)

pub settled-IsBalanced :
    (o : Order) (tx_id : String) (now : ℕ) (s : Books) (from : Option String) (b : String)
    → o.from_agent ≡ from
    → o.to_agent ≡ some b
    → IsBalanced s
    → is_some (account b s) ≡ true
    → Covered from o.amount s
    → IsBalanced (settled o tx_id now s)
unfolding total_balance total_minted
settled-IsBalanced o tx_id now s none b ef et h known c =
    rw (ef, et)
      (record {
        keyed = IsKeyed-credited b o.amount now s h.keyed;
        conserved = ground (
          arith,
          h.conserved,
          ef,
          sum-credited b o.amount now s h.keyed known,
          total_minted_logged (receipt o tx_id now applied) s,
        );
      })
settled-IsBalanced o tx_id now s (some a) b ef et h known (n, holds, le) =
    let paid = debited a o.amount now s in
    rw (ef, et)
      (record {
        keyed = IsKeyed-credited b o.amount now paid (IsKeyed-debited a o.amount now s h.keyed);
        conserved = ground (
          arith,
          h.conserved,
          ef,
          sum-debited a o.amount now s h.keyed holds le,
          sum-credited b o.amount now paid (IsKeyed-debited a o.amount now s h.keyed)
              (known-debited a b o.amount now s ∙ known),
          total_minted_logged (receipt o tx_id now applied) s,
        );
      })
