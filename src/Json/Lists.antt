-- ===== src/Json/Lists.antt =====
-- The lists and maps that the readers of JSON return.
use aim_data_gateway.Prelude.{
  ℕ, zero, suc, ◌≤◌, ◌≡◌, Bool, true, false, Option, none, some, List, arith, inl, inr, Bool-cases,
}
use aim_data_gateway.Json.{Json, Elements, Members, no_members, member, before}
use aim_data_gateway.Json.Read.{
  Reading, skip, expect, then_element, then_elements, inserted, insert_member, in_front,
  then_member, then_members, separated, value_of_key, read_key, key_value, array_round,
  object_round, read_elements, read_members,
}
use aim_data_gateway.Json.Values.{
  IsValue, AreValues, AreMembers, IsBefore, levels, levels_elements, levels_members,
}
use aim_data_gateway.Json.Reads.{
  AreScalars, if_both, Reads, skip-scalars, Left, expect-Left, read_key-Reads, separated-Left,
}

module _ (ok_number : List ℕ → Bool) where
  -- A value in order, of at most `room` levels; elements and members likewise.
  abbrev pub IsValueIn : ℕ → Json → Type 0
  IsValueIn room v = IsValue ok_number v × (levels v ≤ room)

  abbrev pub AreValuesIn : ℕ → Elements → Type 0
  AreValuesIn room xs = AreValues ok_number xs × (levels_elements xs ≤ room)

  abbrev pub AreMembersIn : ℕ → Members → Type 0
  AreMembersIn room ms = AreMembers ok_number ms × (levels_members ms ≤ room)

  abbrev pub InOrder : ℕ → Option Members → Type 0
  InOrder room none = Unit
  InOrder room (some ms) = AreMembersIn room ms

  abbrev pub Behind : List ℕ → Option Members → Type 0
  Behind j none = Unit
  Behind j (some ms) = IsBefore j ms

  pub in_front-Behind :
      (j i : List ℕ) (w : Json) (o : Option Members) → before j i ≡ true → Behind j (in_front i w o)
  in_front-Behind j i w none b = tt
  in_front-Behind j i w (some ms) b = b

  -- A key that is inserted behind `j` keeps `j` in front.
  pub insert_member-Behind :
      (j k : List ℕ) (v : Json) (ms : Members)
      → before j k ≡ true
      → IsBefore j ms
      → Behind j (insert_member k v ms)
  unfolding insert_member
  insert_member-Behind j k v no_members b h = b
  insert_member-Behind j k v (member i w ms) b h =
      if_both (Behind j) (before k i) b
        (if_both (Behind j) (before i k) (in_front-Behind j i w (insert_member k v ms) h) tt)

  pub in_front-InOrder :
      (room : ℕ) (j : List ℕ) (w : Json) (o : Option Members)
      → AreScalars j
      → IsValueIn room w
      → Behind j o
      → InOrder room o
      → InOrder room (in_front j w o)
  unfolding IsValue levels
  in_front-InOrder room j w none s h b o = tt
  in_front-InOrder room j w (some ms) s h b o = (((s, b), (h.0, o.0)), omega (arith, h.1, o.1))

  pub insert_member-InOrder :
      (room : ℕ) (k : List ℕ) (v : Json) (ms : Members)
      → AreScalars k
      → IsValueIn room v
      → AreMembersIn room ms
      → InOrder room (insert_member k v ms)
  unfolding insert_member IsValue levels
  insert_member-InOrder room k v no_members s h m = (((s, tt), (h.0, tt)), omega (arith, h.1))
  insert_member-InOrder room k v (member j w ms) s h m = elim (Bool-cases (before k j)) [
    | inl e ↦ rw e (((s, e), (h.0, m.0)), omega (arith, h.1, m.1))
    | inr e ↦ elim (Bool-cases (before j k)) [
      | inl f ↦
          rw (e, f)
            (in_front-InOrder room j w (insert_member k v ms) m.0.0.0 (m.0.1.0, omega (arith, m.1))
              (insert_member-Behind j k v ms f m.0.0.1)
              (insert_member-InOrder room k v ms s h (m.0.1.1, omega (arith, m.1))))
      | inr f ↦ rw (e, f) tt
    ]
  ]

  module _ (room : ℕ) where
    abbrev pub ReadsElements : Option (Elements × List ℕ) → Type 0
    ReadsElements o = Reads (AreValuesIn room) o

    abbrev pub ReadsMembers : Option (Members × List ℕ) → Type 0
    ReadsMembers o = Reads (AreMembersIn room) o

    pub then_element-Reads :
        (v : Json) (o : Option (Elements × List ℕ))
        → IsValueIn room v
        → ReadsElements o
        → ReadsElements (then_element v o)
    unfolding IsValue levels
    then_element-Reads v none h r = tt
    then_element-Reads v (some (xs, t)) h r = (((h.0, r.0.0), omega (arith, h.1, r.0.1)), r.1)

    pub inserted-Reads :
        (o : Option Members) (t : List ℕ)
        → InOrder room o
        → AreScalars t
        → ReadsMembers (inserted o t)
    inserted-Reads none t o h = tt
    inserted-Reads (some ms) t o h = (o, h)

    pub then_member-Reads :
        (k : List ℕ) (v : Json) (o : Option (Members × List ℕ))
        → AreScalars k
        → IsValueIn room v
        → ReadsMembers o
        → ReadsMembers (then_member k v o)
    then_member-Reads k v none s h r = tt
    then_member-Reads k v (some (ms, t)) s h r =
        inserted-Reads (insert_member k v ms) t (insert_member-InOrder room k v ms s h r.0) r.1

    module _ (read : List ℕ → Reading)
        (reads : (s : List ℕ) → AreScalars s → Reads (IsValueIn room) (read s)) where
      pub then_elements-Reads :
          (more : List ℕ → Option (Elements × List ℕ)) (o : Reading)
          → ((t : List ℕ) → AreScalars t → ReadsElements (more t))
          → Reads (IsValueIn room) o
          → ReadsElements (then_elements more o)
      then_elements-Reads more none m r = tt
      then_elements-Reads more (some (v, t)) m r = then_element-Reads v (more t) r.0 (m t r.1)

      pub array_round-Reads :
          (more : List ℕ → Option (Elements × List ℕ)) (end next : Option (List ℕ))
          → ((t : List ℕ) → AreScalars t → ReadsElements (more t))
          → Left end
          → Left next
          → ReadsElements (array_round read more end next)
      unfolding IsValue levels
      array_round-Reads more (some t) next m e n = ((tt, omega arith), e)
      array_round-Reads more none none m e n = tt
      array_round-Reads more none (some t) m e n = then_elements-Reads more (read t) m (reads t n)

      pub read_elements-Reads :
          (rounds : ℕ) (first : Bool) (s : List ℕ)
          → AreScalars s
          → ReadsElements (read_elements rounds read first s)
      unfolding read_elements
      read_elements-Reads zero first s h = tt
      read_elements-Reads (suc rounds) first s h =
          let here = skip-scalars s h in
          array_round-Reads (read_elements rounds read false) (expect 93 (skip s))
            (separated first (skip s)) (read_elements-Reads rounds false)
            (expect-Left 93 (skip s) here) (separated-Left first (skip s) here)

      pub then_members-Reads :
          (more : List ℕ → Option (Members × List ℕ)) (k : List ℕ) (o : Reading)
          → AreScalars k
          → ((t : List ℕ) → AreScalars t → ReadsMembers (more t))
          → Reads (IsValueIn room) o
          → ReadsMembers (then_members more k o)
      then_members-Reads more k none s m r = tt
      then_members-Reads more k (some (v, t)) s m r = then_member-Reads k v (more t) s r.0 (m t r.1)

      pub value_of_key-Reads :
          (more : List ℕ → Option (Members × List ℕ)) (k : List ℕ) (o : Option (List ℕ))
          → AreScalars k
          → ((t : List ℕ) → AreScalars t → ReadsMembers (more t))
          → Left o
          → ReadsMembers (value_of_key read more k o)
      value_of_key-Reads more k none s m l = tt
      value_of_key-Reads more k (some t) s m l = then_members-Reads more k (read t) s m (reads t l)

      pub key_value-Reads :
          (more : List ℕ → Option (Members × List ℕ)) (o : Option (List ℕ × List ℕ))
          → ((t : List ℕ) → AreScalars t → ReadsMembers (more t))
          → Reads AreScalars o
          → ReadsMembers (key_value read more o)
      key_value-Reads more none m r = tt
      key_value-Reads more (some (k, s)) m r =
          value_of_key-Reads more k (expect 58 (skip s)) r.0 m
            (expect-Left 58 (skip s) (skip-scalars s r.1))

      pub object_round-Reads :
          (more : List ℕ → Option (Members × List ℕ)) (end next : Option (List ℕ))
          → ((t : List ℕ) → AreScalars t → ReadsMembers (more t))
          → Left end
          → Left next
          → ReadsMembers (object_round read more end next)
      unfolding IsValue levels
      object_round-Reads more (some t) next m e n = ((tt, omega arith), e)
      object_round-Reads more none none m e n = tt
      object_round-Reads more none (some t) m e n =
          key_value-Reads more (read_key (skip t)) m (read_key-Reads (skip t) (skip-scalars t n))

      pub read_members-Reads :
          (rounds : ℕ) (first : Bool) (s : List ℕ)
          → AreScalars s
          → ReadsMembers (read_members rounds read first s)
      unfolding read_members
      read_members-Reads zero first s h = tt
      read_members-Reads (suc rounds) first s h =
          let here = skip-scalars s h in
          object_round-Reads (read_members rounds read false) (expect 125 (skip s))
            (separated first (skip s)) (read_members-Reads rounds false)
            (expect-Left 125 (skip s) here) (separated-Left first (skip s) here)
