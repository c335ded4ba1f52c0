-- ===== src/Credits/Moves.antt =====
-- A covered transfer between two accounts finishes, and moves exactly its amount.
use oldman_agent.Prelude.{
  ℕ, ◌+◌, ◌-◌, ◌≤◌, String, ◌≡◌, ◌≢◌, refl, sym, ap, ◌∙◌, false, Option, some, [], ◌∷◌, ◌++◌, arith,
  ltb, ◌==◌,
}
use oldman_agent.Exec.{Result, ok}
use oldman_agent.Exec.Ends.{Ends, Ends-pure, Ends-gets, Ends-modify, Ends-raise_if, Ends-bind}
use oldman_agent.Table.{find-update_ne, find-update_self}
use oldman_agent.Books.{
  Books, BalanceRow, Reason, max_integer, applied, account, uuid4, insert_transaction,
  CreditsTransaction,
}
use oldman_agent.Credits.{
  Order, receipt, check_order, ensure_balance, ensure_if_given, debited, debit, credit, apply_order,
  settle_order, transfer, get_balance, balance_or_zero,
}
use oldman_agent.Credits.Settled.{settled}

-- An order from agent `a` to agent `b`.
abbrev pub payment : String → String → ℕ → Reason → Option String → Option String → Order
payment a b amount reason event_id invoice_id = record {
  from_agent = some a;
  to_agent = some b;
  amount = amount;
  reason = reason;
  event_id = event_id;
  invoice_id = invoice_id;
}

module _ (a b : String) (amount : ℕ) (reason : Reason) (event_id invoice_id : Option String)
    (grant : ℕ) (s : Books) (ra rb : BalanceRow) where
  abbrev o : Order
  o = payment a b amount reason event_id invoice_id

  check_order-Ends :
      (Q : Result (Unit {0}) → Books → Type 0)
      → (a == "") ≡ false
      → (b == "") ≡ false
      → 1 ≤ amount
      → Q (ok tt) s
      → Ends (check_order o) s Q
  unfolding check_order
  check_order-Ends Q ha hb pos h = Ends-bind _ _ s Q (
      Ends-raise_if _ _ s _ (λ e. absurd (ground (arith, e, pos)))
        λ _. Ends-bind _ _ s Q (
          Ends-raise_if _ _ s _ (λ e. absurd (ground (arith, e, ha, hb)))
            λ _. Ends-bind _ _ s Q (
              Ends-raise_if _ _ s _ (λ e. absurd (ground arith))
                λ _. Ends-raise_if _ _ s Q (λ e. absurd (ground (arith, e, ha, hb))) λ _. h)))

  ensure-Ends :
      (c : String) (r : BalanceRow) (t : Books) (Q : Result (Option ℕ) → Books → Type 0)
      → account c t ≡ some r
      → Q (ok (some r.balance)) t
      → Ends (ensure_if_given (some c) grant) t Q
  unfolding ensure_balance
  ensure-Ends c r t Q e h =
      Ends-bind _ _ t Q
        (Ends-bind _ _ t _ (Ends-gets _ t _ (rw e (Ends-pure _ t _ (Ends-pure _ t Q h)))))

  insert_transaction-Ends :
      (tx : CreditsTransaction) (t : Books) (Q : Result (Unit {0}) → Books → Type 0)
      → 1 ≤ tx.amount
      → tx.amount ≤ max_integer
      → Q (ok tt) (record t { transactions = t.transactions ++ tx ∷ [] })
      → Ends (insert_transaction tx) t Q
  unfolding insert_transaction
  insert_transaction-Ends tx t Q pos small h = Ends-bind _ _ t Q (
      Ends-raise_if _ _ t _ (λ e. absurd (ground (arith, e, pos)))
        λ _.
          Ends-bind _ _ t Q (
            Ends-raise_if _ _ t _ (λ e. absurd (ground (arith, e, small)))
              λ _. Ends-modify _ t Q h))

  module _ (different : a ≢ b) (pos : 1 ≤ amount) (funds : amount ≤ ra.balance)
      (room : rb.balance + amount ≤ max_integer) where
    receiver-debited :
        (t : Books) (now : ℕ) → account b t ≡ some rb → account b (debited a amount now t) ≡ some rb
    receiver-debited t now eb =
        find-update_ne (λ (r : BalanceRow). r.agent_id) a _ (λ r. refl) b t.balances different ∙ eb

    apply_order-Ends :
        (tx_id : String) (now : ℕ) (t : Books) (Q : Result CreditsTransaction → Books → Type 0)
        → account a t ≡ some ra
        → account b t ≡ some rb
        → Q (ok (receipt o tx_id now applied)) (settled o tx_id now t)
        → Ends (apply_order o tx_id now) t Q
    unfolding apply_order debit credit
    apply_order-Ends tx_id now t Q ea eb h = Ends-bind _ _ t Q (
        Ends-bind _ _ t _ (
          Ends-gets _ t _ (
            Ends-bind _ _ t _ (
              Ends-raise_if _ _ t _ (λ e. absurd (ground (arith, e, ea, funds)))
                λ _. Ends-modify _ t _ (
                  Ends-bind _ _ _ Q (
                    Ends-bind _ _ _ _ (
                      Ends-gets _ _ _ (
                        Ends-bind _ _ _ _ (
                          Ends-raise_if _ _ _ _
                            (λ e. absurd (ground (arith, e, receiver-debited t now eb, room)))
                            λ _. Ends-modify _ _ _ (
                              Ends-bind _ _ _ Q (
                                insert_transaction-Ends (receipt o tx_id now applied) _ _ pos
                                  (omega arith) (Ends-pure _ _ Q h))))))))))))

    settled-balances :
        (tx_id : String) (now : ℕ) (t : Books)
        → account a t ≡ some ra
        → account b t ≡ some rb
        → (get_balance a (settled o tx_id now t) + amount ≡ ra.balance)
          × (get_balance b (settled o tx_id now t) ≡ rb.balance + amount)
    unfolding get_balance
    settled-balances tx_id now t ea eb =
        let sender = ap balance_or_zero (
          find-update_ne (λ (r : BalanceRow). r.agent_id) b
            (λ r. record r { balance = r.balance + amount; last_updated = now }) (λ r. refl) a
            (debited a amount now t).balances (λ e. different (sym e))
          ∙ find-update_self (λ (r : BalanceRow). r.agent_id) a
              (λ r. record r { balance = r.balance - amount; last_updated = now }) (λ r. refl) ra
              t.balances ea) in
        let receiver = ap balance_or_zero (
          find-update_self (λ (r : BalanceRow). r.agent_id) b
            (λ r. record r { balance = r.balance + amount; last_updated = now }) (λ r. refl) rb
            (debited a amount now t).balances (receiver-debited t now eb)) in
        (omega (arith, sender, funds), receiver)

balance_of :
    (a : String) (s : Books) (r : BalanceRow) → account a s ≡ some r → r.balance ≡ get_balance a s
unfolding get_balance
balance_of a s r e = sym (ap balance_or_zero e)

module _ (a b : String) (amount : ℕ) (reason : Reason) (event_id invoice_id : Option String)
    (grant : ℕ) (s : Books) (ra rb : BalanceRow) where
  -- The sender pays the amount, the receiver gets it, and one entry is logged.
  pub record IsMoved (r : Result CreditsTransaction) (s' : Books) : Type 0 where
    pub result :
        r
        ≡ ok (
            receipt
              (payment a b amount reason event_id invoice_id)
              (s.fresh s.drawn)
              s.clock
              applied)
    pub paid : get_balance a s' + amount ≡ get_balance a s
    pub received : get_balance b s' ≡ get_balance b s + amount
    pub logged :
        s'.transactions
        ≡ s.transactions
          ++ receipt
              (payment a b amount reason event_id invoice_id)
              (s.fresh s.drawn)
              s.clock
              applied
            ∷ []

  -- Between two different agents that have accounts and names, a transfer of a positive amount that the
  -- sender holds and that the receiver has room for finishes: it takes exactly the amount from the one,
  -- gives it to the other, and logs one applied transaction. Known agents get no second grant.
  pub transfer-IsMoved :
      account a s ≡ some ra
      → account b s ≡ some rb
      → (a == "") ≡ false
      → (b == "") ≡ false
      → a ≢ b
      → 1 ≤ amount
      → amount ≤ ra.balance
      → rb.balance + amount ≤ max_integer
      → IsMoved
          (transfer (payment a b amount reason event_id invoice_id) grant s).0
          (transfer (payment a b amount reason event_id invoice_id) grant s).1
  unfolding transfer uuid4 settle_order
  transfer-IsMoved ea eb ha hb different pos funds room = ends.at
    where
      t : Books
      t = record s { drawn = s.drawn + 1 }

      covered : ltb ra.balance amount ≡ false
      covered = ground (arith, funds)

      moved :
          (get_balance a (
                settled (payment a b amount reason event_id invoice_id) (s.fresh s.drawn) s.clock t)
              + amount
            ≡ ra.balance)
          × (get_balance b (
                settled (payment a b amount reason event_id invoice_id) (s.fresh s.drawn) s.clock t)
              ≡ rb.balance + amount)
      moved =
          settled-balances a b amount reason event_id invoice_id grant s ra rb different pos funds
            room (s.fresh s.drawn) s.clock t ea eb

      settled_now :
          Ends
            (settle_order
              (payment a b amount reason event_id invoice_id)
              (s.fresh s.drawn)
              s.clock
              (some ra.balance)
              (some a))
            t
            IsMoved
      settled_now = rw covered (
          apply_order-Ends a b amount reason event_id invoice_id grant s ra rb different pos funds
            room (s.fresh s.drawn) s.clock t IsMoved ea eb
            (record {
              result = refl;
              paid = moved.0 ∙ balance_of a s ra ea;
              received = moved.1 ∙ ap (λ n. n + amount) (balance_of b s rb eb);
              logged = refl;
            }))

      ends : Ends (transfer (payment a b amount reason event_id invoice_id) grant) s IsMoved
      ends = Ends-bind _ _ s IsMoved (
          check_order-Ends a b amount reason event_id invoice_id grant s ra rb _ ha hb pos (
            Ends-bind _ _ s IsMoved (
              Ends-gets _ s _ (
                Ends-bind _ _ s IsMoved (record {
                  at = Ends-bind _ _ _ IsMoved (
                      ensure-Ends a b amount reason event_id invoice_id grant s ra rb a ra _ _ ea (
                        Ends-bind _ _ _ IsMoved (
                          ensure-Ends a b amount reason event_id invoice_id grant s ra rb b rb _ _
                            eb settled_now)));
                })))))
