-- ===== src/Reader/Manager/Added.antt =====
-- reader/reader.go: which readers a manager has after calls of `AddReader`.
use windns_logtail.Base.{
  Bool, true, false, List, [], ◌∷◌, ◌++◌, append-nil, append_assoc, ℤ, ◌≡◌, refl, sym, ap, ◌∙◌,
  length, ltb, arith,
}
use windns_logtail.Reader.Manager.{ReaderKind, set_up, append_if, add_reader, start}

module _ (k : ReaderKind) where
  open k use {Reader}

  -- A call of `AddReader`.
  pub record Call : Type 0 where
    pub reader : Reader
    pub max_read : ℤ
    pub internal : ℤ

  -- Calls one after the other, each error left to the caller.
  abbrev pub add_all : List Call → List Reader → List Reader
  add_all [] readers = readers
  add_all (c ∷ cs) readers = add_all cs (add_reader k c.reader c.max_read c.internal readers).0

  abbrev set_up_ok : Reader × Bool → List Reader
  set_up_ok (r, true) = r ∷ []
  set_up_ok (r, false) = []

  -- The readers that could be set up.
  abbrev pub ready : List Call → List Reader
  ready [] = []
  ready (c ∷ cs) = set_up_ok (set_up k c.max_read c.internal c.reader) ++ ready cs

  append_if_lem :
      (r : Reader × Bool) (readers : List Reader)
      → (append_if k r readers).0 ≡ readers ++ set_up_ok r
  unfolding append_if
  append_if_lem (r, true) readers = refl
  append_if_lem (r, false) readers = sym (append-nil readers)

  add_all_lem : (cs : List Call) (readers : List Reader) → add_all cs readers ≡ readers ++ ready cs
  unfolding add_reader
  add_all_lem [] readers = sym (append-nil readers)
  add_all_lem (c ∷ cs) readers =
      let r = set_up k c.max_read c.internal c.reader in
      add_all_lem cs (append_if k r readers).0
      ∙ ap (λ l. l ++ ready cs) (append_if_lem r readers)
      ∙ append_assoc readers (set_up_ok r) (ready cs)

  start-length : (readers : List Reader) → start k readers ≡ ltb 0 (length readers)
  unfolding start
  start-length [] = refl
  start-length (r ∷ rs) = ground arith

  -- After any calls of `AddReader` on a new manager, its readers are those for which both `Init`
  -- and `SetCron` worked, in the order of the calls, and `Start` returns no error if and only if
  -- there is one.
  pub start-add_all :
      (cs : List Call)
      → (add_all cs [] ≡ ready cs) × (start k (add_all cs []) ≡ ltb 0 (length (ready cs)))
  start-add_all cs =
      let same : add_all cs [] ≡ ready cs = add_all_lem cs [] in
      (same, start-length (add_all cs []) ∙ ap (λ l. ltb 0 (length l)) same)
