-- ===== src/DecisionBridge/Calls.antt =====
-- Whatever fails in between, all calls of an owner for one decision carry one action key:
-- decision_bridge/bridge.py.
use fleet_graph.Common.{
  Bool-cases, In, Option, String, ap, eq_iff, false, inl, inr, is_some, none, refl, some, subst,
  sym, true, ℕ, ◌==◌, ◌∙◌, ◌∷◌, ◌≡◌,
}
use fleet_graph.Common.Dict.{insert, lookup, lookup-insert}
use fleet_graph.Common.Sqlite.{Io}
use fleet_graph.DecisionBridge.{BridgeStore, Receipt, Status, is_terminal}
use fleet_graph.DecisionBridge.Bridge.{BridgeState, with_store}
use fleet_graph.DecisionBridge.Effects.{seal_terminal-cases}
use fleet_graph.DecisionBridge.Store.{ReceiptInput, advanced, seal_terminal, sealed_row}

-- Every call is backed by the receipt of its decision, and every open intent has a key.
pub record Sound (b : BridgeState) : Type 0 where
  pub backed :
      (source key : String)
      → In (source, key) b.calls
      → (r : Receipt) × (lookup source b.store.receipts ≡ some r) × (r.action_key ≡ some key)
  pub keyed :
      (source : String) (r : Receipt)
      → lookup source b.store.receipts ≡ some r
      → is_terminal r.status ≡ false
      → is_some r.action_key ≡ true

-- A store with the same receipts.
pub same-Sound :
    (b : BridgeState) (s : BridgeStore)
    → s.receipts ≡ b.store.receipts
    → Sound b
    → Sound (record b { store = s })
same-Sound b s e sound = record {
  backed =
      λ source key i. let (r, found, same) = sound.backed source key i in (r, rw e found, same);
  keyed = λ source r found open_. sound.keyed source r (sym (ap (lookup source) e) ∙ found) open_;
}

-- A written receipt whose key is the one that its decision's calls carry.
pub insert-Sound :
    (b : BridgeState) (n : ℕ) (source : String) (row : Receipt)
    → ((key : String) → In (source, key) b.calls → row.action_key ≡ some key)
    → (is_terminal row.status ≡ false → is_some row.action_key ≡ true)
    → Sound b
    → Sound (record b {
      store = record { board_seq = n; receipts = insert source row b.store.receipts };
    })
insert-Sound b n source row same open_ sound = record {
  backed = λ asked key i. elim (Bool-cases (source == asked)) [
    | inl e ↦
        let p = (eq_iff source asked).0 e in
        (
          row,
          lookup-insert source asked row b.store.receipts ∙ rw e refl,
          same key (subst (λ x. In (x, key) b.calls) (sym p) i),
        )
    | inr e ↦
        let (r, found, kept) = sound.backed asked key i in
        (r, lookup-insert source asked row b.store.receipts ∙ rw e found, kept)
  ];
  keyed = λ asked r found h. elim (Bool-cases (source == asked)) [
    | inl e ↦
        let there : some row ≡ some r =
          sym (lookup-insert source asked row b.store.receipts ∙ rw e refl) ∙ found in
        let q : row ≡ r = cc in
        subst (λ x. is_terminal x.status ≡ false → is_some x.action_key ≡ true) q open_ h
    | inr e ↦
        let kept : lookup asked (insert source row b.store.receipts)
            ≡ lookup asked b.store.receipts =
          lookup-insert source asked row b.store.receipts ∙ rw e refl in
        sound.keyed asked r (sym kept ∙ found) h
  ];
}

-- One more call with the key of the receipt.
pub call-Sound :
    (b : BridgeState) (source key : String) (r : Receipt)
    → lookup source b.store.receipts ≡ some r
    → r.action_key ≡ some key
    → Sound b
    → Sound (record b { calls = (source, key) ∷ b.calls })
call-Sound b source key r found same sound = record {
  backed = λ asked k i. elim i [
    | inl e ↦ (
      r,
      ap (λ x. lookup x b.store.receipts) (sym (ap (λ p. p.0) e)) ∙ found,
      same ∙ ap (λ p. some p.1) e,
    )
    | inr j ↦ sound.backed asked k j
  ];
  keyed = sound.keyed;
}

-- A decision without a receipt has no calls.
pub none-fresh :
    (b : BridgeState) (source : String)
    → Sound b
    → lookup source b.store.receipts ≡ none
    → (o : Option String) (key : String) → In (source, key) b.calls
    → o ≡ some key
none-fresh b source sound e o key i =
    let (r, found, same) = sound.backed source key i in
    let bad : none ≡ some r = sym e ∙ found in cc

pub sealed-key :
    (now : String) (status : Status) (input : ReceiptInput) (old : Option Receipt)
    → ((sealed_row now status input old).action_key ≡ input.action_key)
      × ((sealed_row now status input old).status ≡ status)
sealed-key now status input none = (refl, refl)
sealed-key now status input (some old) = (refl, refl)

-- Sealing with the key that the decision's calls carry, or where there are no calls.
pub seal-Sound :
    (b : BridgeState) (io : Io) (now : String) (status : Status) (input : ReceiptInput) (seq : ℕ)
    → ((key : String) → In (input.source_message_id, key) b.calls → input.action_key ≡ some key)
    → Sound b
    → Sound (with_store b (seal_terminal io now status input seq b.store)).0
seal-Sound b io now status input seq same sound =
    elim (seal_terminal-cases io now status input seq b.store) [
      | inl (e, q) ↦ rw q sound
      | inr (term, q) ↦ rw q (
          let old = lookup input.source_message_id b.store.receipts in
          insert-Sound b (advanced b.store.board_seq seq) input.source_message_id
            (sealed_row now status input old)
            (λ key i. (sealed-key now status input old).0 ∙ same key i)
            (λ open_.
              let bad : true ≡ false =
                sym term ∙ sym (ap is_terminal (sealed-key now status input old).1) ∙ open_ in
              cc)
            sound)
    ]
