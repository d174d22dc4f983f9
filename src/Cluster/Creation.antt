-- ===== src/Cluster/Creation.antt =====
-- What `createNode`'s loop over the parts of a path leaves on the servers.
use mathlib.Core.Path.{subst}
use study_notes.Base.{
  ℕ, ◌≡◌, refl, ◌∙◌, sym, ap, ◌⊎◌, inl, inr, Bool, true, false, List, [], ◌∷◌, ◌++◌, if◌then◌else◌,
  Bool-cases,
}
use study_notes.Cluster.Manager.{Rc, zok, znonode, Zookeeper, slash, create_parents}

-- ZooKeeper's documentation, where no call fails: `exists` tells whether a node is there, and
-- `create` makes a node whose parent is there, and takes no other away.
pub record Serves {S : Type 0} (zk : Zookeeper S) (has : S → List ℕ → Bool) : Type 0 where
  pub exists_state : (s : S) (p : List ℕ) → (zk.zoo_exists s p).0 ≡ s
  pub exists_code :
      (s : S) (p : List ℕ) → (zk.zoo_exists s p).1 ≡ (if has s p then zok else znonode)
  pub create_code :
      (s : S) (p part : List ℕ)
      → (p ≡ []) ⊎ (has s p ≡ true)
      → has s (p ++ slash ∷ part) ≡ false
      → (zk.zoo_create s (p ++ slash ∷ part)).1 ≡ zok
  pub create_adds :
      (s : S) (p part : List ℕ)
      → (p ≡ []) ⊎ (has s p ≡ true)
      → has (zk.zoo_create s (p ++ slash ∷ part)).0 (p ++ slash ∷ part) ≡ true
  pub create_keeps : (s : S) (p q : List ℕ) → has s q ≡ true → has (zk.zoo_create s p).0 q ≡ true

-- The nodes along a path are there, below `base`.
abbrev pub AllThere : (List ℕ → Bool) → List ℕ → List (List ℕ) → Type 0
AllThere h base [] = Unit
AllThere h base (part ∷ parts) =
    (h (base ++ slash ∷ part) ≡ true) × AllThere h (base ++ slash ∷ part) parts

module _ {S : Type 0} (zk : Zookeeper S) (has : S → List ℕ → Bool) (serves : Serves zk has) where
  abbrev Keeps : S → S → Type 0
  Keeps s s' = (q : List ℕ) → has s q ≡ true → has s' q ≡ true

  abbrev result : List (List ℕ) → Rc → Rc
  result [] res = res
  result (part ∷ parts) res = zok

  result-zok : (parts : List (List ℕ)) → result parts zok ≡ zok
  result-zok [] = refl
  result-zok (part ∷ parts) = refl

  step_there :
      (s : S) (base part : List ℕ) (parts : List (List ℕ)) (res : Rc)
      → has s (base ++ slash ∷ part) ≡ true
      → create_parents zk s base (part ∷ parts) res
        ≡ create_parents zk s (base ++ slash ∷ part) parts zok
  unfolding create_parents
  step_there s base part parts res there =
      let next = base ++ slash ∷ part in
      let code : (zk.zoo_exists s next).1 ≡ zok =
        serves.exists_code s next ∙ ap (λ b. if b then zok else znonode) there in
      rw (code, serves.exists_state s next) refl

  step_missing :
      (s : S) (base part : List ℕ) (parts : List (List ℕ)) (res : Rc)
      → (base ≡ []) ⊎ (has s base ≡ true)
      → has s (base ++ slash ∷ part) ≡ false
      → create_parents zk s base (part ∷ parts) res
        ≡ create_parents zk
            (zk.zoo_create s (base ++ slash ∷ part)).0
            (base ++ slash ∷ part)
            parts
            zok
  unfolding create_parents
  step_missing s base part parts res above missing =
      let next = base ++ slash ∷ part in
      let code : (zk.zoo_exists s next).1 ≡ znonode =
        serves.exists_code s next ∙ ap (λ b. if b then zok else znonode) missing in
      rw (code, serves.exists_state s next, serves.create_code s base part above missing) refl

  abbrev Made : S → List ℕ → List (List ℕ) → Rc → S × Rc → Type 0
  Made s base parts res x = Keeps s x.0 × AllThere (has x.0) base parts × (x.1 ≡ result parts res)

  made :
      (parts : List (List ℕ)) (s : S) (base : List ℕ) (res : Rc)
      → (base ≡ []) ⊎ (has s base ≡ true)
      → Made s base parts res (create_parents zk s base parts res)
  unfolding create_parents
  made [] s base res above = ((λ q h. h), tt, refl)
  made (part ∷ parts) s base res above = elim (Bool-cases (has s (base ++ slash ∷ part))) [
    | inl there ↦
        let (keeps, below, code) = made parts s (base ++ slash ∷ part) zok (inr there) in
        subst (Made s base (part ∷ parts) res) (sym (step_there s base part parts res there))
          (keeps, (keeps _ there, below), code ∙ result-zok parts)
    | inr missing ↦
        let next = base ++ slash ∷ part in
        let s2 = (zk.zoo_create s next).0 in
        let added = serves.create_adds s base part above in
        let (keeps, below, code) = made parts s2 next zok (inr added) in
        subst (Made s base (part ∷ parts) res)
          (sym (step_missing s base part parts res above missing))
          (
            (λ q h. keeps q (serves.create_keeps s next q h)),
            (keeps next added, below),
            code ∙ result-zok parts,
          )
  ]

  -- Where ZooKeeper serves its calls: for a path with at least one part, `createNode`'s loop leaves
  -- every node along the path on the servers, and ends with `ZOK`.
  pub create_parents-AllThere :
      (s : S) (part : List ℕ) (parts : List (List ℕ)) (res : Rc)
      → AllThere (has (create_parents zk s [] (part ∷ parts) res).0) [] (part ∷ parts)
        × ((create_parents zk s [] (part ∷ parts) res).1 ≡ zok)
  create_parents-AllThere s part parts res =
      let all = made (part ∷ parts) s [] res (inl refl) in (all.1, all.2)
