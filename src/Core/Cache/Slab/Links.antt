-- ===== src/Core/Cache/Slab/Links.antt =====
-- What unlinking a slot and pushing it to the head do to the linked list.
use sumidero.Prelude.{
  ℕ, ◌≡◌, ◌≢◌, refl, ◌∙◌, inl, inr, false, Bool-cases, some, List, [], ◌∷◌, ◌++◌, All, All-map,
  All-split, length-set, get_elem?, get_elem?-bound, get_elem?-set_self, get_elem?-set_ne, set,
  ◌==◌, ==_iff,
}
use sumidero.Core.Cache.Slab.{
  Node, Slot, occupied, Inner, no_link, with_prev, with_next, with_links, update, join_next,
  join_prev, unlink, push_head,
}
use sumidero.Core.Cache.Slab.Chain.{
  Item, Cells, node_of, first, last, Holds, Linked, Fresh, IsDistinct, Apart, Off, Linked-split,
  Linked-append, Linked-frame, set-frame, Linked-set-last, Linked-set_first,
}

pub ==_of_ne : (a b : ℕ) → a ≢ b → (a == b) ≡ false
==_of_ne a b n = elim (Bool-cases (a == b)) [ inl e ↦ absurd (n ((==_iff a b).0 e)) | inr e ↦ e ]

module _ {K V : Type 0} where
  -- No cell has the index that stands for no link.
  abbrev pub IsValid : Cells K V → Type 0
  IsValid cs = All (λ c. c.0 ≢ no_link) cs

  pub IsValid-last : (c : ℕ × Item K V) (cs : Cells K V) → IsValid (c ∷ cs) → last c.0 cs ≢ no_link
  IsValid-last c [] (n, h) = n
  IsValid-last c (d ∷ ds) (n, h) = IsValid-last d ds h

  -- The state with other slots, another head and another tail.
  abbrev pub linked : Inner K V → List (Slot K V) → ℕ → ℕ → Inner K V
  linked s sl h t = record s { slots = sl; head = h; tail = t }

  Off-refl : (cs : Cells K V) (sl : List (Slot K V)) → Off cs sl sl
  Off-refl cs sl = record { same = λ j h. refl; size = refl }

  pub Off-trans : (cs : Cells K V) (a b c : List (Slot K V)) → Off cs a b → Off cs b c → Off cs a c
  Off-trans cs a b c h k = record { same = λ j f. k.same j f ∙ h.same j f; size = k.size ∙ h.size }

  Fresh-last_ne : (j : ℕ) (c : ℕ × Item K V) (cs : Cells K V) → Fresh j (c ∷ cs) → last c.0 cs ≢ j
  Fresh-last_ne j c [] (n, h) = n
  Fresh-last_ne j c (d ∷ ds) (n, h) = Fresh-last_ne j d ds h

  pub update-Holds :
      (f : Node K V → Node K V) (i : ℕ) (s : Inner K V) {n : Node K V}
      → Holds s.slots i n
      → update f i s ≡ some (record s { slots = set s.slots i (occupied (f n)) })
  unfolding update
  update-Holds f i s h = rw (h, update) refl

  module _ (s : Inner K V) where
    -- The chain `xs` led on to `q`, from the head on, and leads to `q'` now.
    pub join_next-Linked :
        (xs : Cells K V) (q q' t : ℕ) (sl : List (Slot K V))
        → IsDistinct xs
        → IsValid xs
        → Linked sl no_link xs q
        → (sl' : List (Slot K V)) × (join_next (last no_link xs) q' (linked s sl (first xs q) t)
            ≡ some (linked s sl' (first xs q') t))
          × Linked sl' no_link xs q'
          × Off xs sl sl'
    unfolding join_next
    join_next-Linked [] q q' t sl d v l = (sl, refl, tt, Off-refl [] sl)
    join_next-Linked (c ∷ cs) q q' t sl d v l =
        let (b, p', h, k) = Linked-set-last sl no_link c cs q d l in
        let i = last c.0 cs in
        let there : (i == no_link) ≡ false = ==_of_ne i no_link (IsValid-last c cs v) in
        (
          set sl i (occupied (node_of b p' q')),
          rw there (update-Holds (with_next q') i (linked s sl c.0 t) h),
          k q',
          record {
            same = λ j f. get_elem?-set_ne sl i j _ (Fresh-last_ne j c cs f);
            size = length-set sl i _;
          },
        )

    -- The chain `ys` led back to `p`, and leads to `p'` now; the tail follows.
    pub join_prev-Linked :
        (ys : Cells K V) (p p' h : ℕ) (sl : List (Slot K V))
        → IsDistinct ys
        → IsValid ys
        → Linked sl p ys no_link
        → (sl' : List (Slot K V)) × (join_prev p' (first ys no_link) (linked s sl h (last p ys))
            ≡ some (linked s sl' h (last p' ys)))
          × Linked sl' p' ys no_link
          × Off ys sl sl'
    unfolding join_prev
    join_prev-Linked [] p p' h sl d v l = (sl, refl, tt, Off-refl [] sl)
    join_prev-Linked (c ∷ cs) p p' h sl d v (e, l) =
        let there : (c.0 == no_link) ≡ false = ==_of_ne c.0 no_link v.0 in
        (
          set sl c.0 (occupied (node_of c.1 p' (first cs no_link))),
          rw there (update-Holds (with_prev p') c.0 (linked s sl h (last c.0 cs)) e),
          Linked-set_first sl p p' c cs no_link d (e, l),
          record { same = λ j f. get_elem?-set_ne sl c.0 j _ f.0; size = length-set sl c.0 _ },
        )

    Off-Linked :
        (xs ys : Cells K V) (p q : ℕ) (sl sl' : List (Slot K V))
        → All (λ c. Fresh c.0 xs) ys
        → Off xs sl sl'
        → Linked sl p ys q
        → Linked sl' p ys q
    Off-Linked xs ys p q sl sl' f o = Linked-frame sl sl' p ys q (
        All-map (λ c. Fresh c.0 xs) (λ c. get_elem? sl' c.0 ≡ get_elem? sl c.0) ys (λ c. o.same c.0)
          f)

    -- A cell is taken out of the middle of the chain; the links of its node are gone, and the other
    -- cells are linked without it.
    pub unlink-Linked :
        (xs ys : Cells K V) (i : ℕ) (a : Item K V) (sl : List (Slot K V))
        → Apart xs (i, a) ys
        → IsValid xs
        → IsValid ys
        → Linked sl no_link (xs ++ (i, a) ∷ ys) no_link
        → (sl' : List (Slot K V)) × (unlink i (linked s sl (first xs i) (last i ys))
            ≡ some (linked s sl' (first xs (first ys no_link)) (last (last no_link xs) ys)))
          × Linked sl' no_link (xs ++ ys) no_link
          × Holds sl' i (node_of a no_link no_link)
          × Off (xs ++ (i, a) ∷ ys) sl sl'
    unfolding unlink
    unlink-Linked xs ys i a sl apart v v' l =
        let (l₁, (e, l₂)) = Linked-split sl no_link xs ((i, a) ∷ ys) no_link l in
        let p = last no_link xs in
        let q = first ys no_link in
        let (sl₁, ran₁, k₁, o₁) = join_next-Linked xs i q (last i ys) sl apart.before v l₁ in
        let m₁ = Off-Linked xs ys i no_link sl sl₁ apart.across o₁ l₂ in
        let (sl₂, ran₂, k₂, o₂) = join_prev-Linked ys i p (first xs q) sl₁ apart.behind v' m₁ in
        let m₂ = Off-Linked ys xs no_link q sl₁ sl₂ apart.across_back o₂ k₁ in
        let here : Holds sl₂ i (node_of a p q) =
          o₂.same i apart.not_behind ∙ o₁.same i apart.not_before ∙ e in
        let n = occupied (node_of a no_link no_link) in
        let sl₃ = set sl₂ i n in
        (
          sl₃,
          rw (e, ran₁, ran₂)
              (update-Holds (with_links no_link no_link) i (linked s sl₂ (first xs q) (last p ys))
                here),
          Linked-append sl₃ no_link xs ys no_link
              (Linked-frame sl₂ sl₃ no_link xs q (set-frame sl₂ i n xs apart.not_before) m₂)
              (Linked-frame sl₂ sl₃ p ys no_link (set-frame sl₂ i n ys apart.not_behind) k₂),
          get_elem?-set_self sl₂ i n (get_elem?-bound sl₂ i here),
          record {
            same = λ j f.
                let (f₁, (f₂, f₃)) = All-split (λ c. c.0 ≢ j) xs ((i, a) ∷ ys) f in
                get_elem?-set_ne sl₂ i j n f₂ ∙ o₂.same j f₃ ∙ o₁.same j f₁;
            size = length-set sl₂ i n ∙ o₂.size ∙ o₁.size;
          },
        )

    -- An unlinked cell becomes the first one.
    pub push_head-Linked :
        (i : ℕ) (a : Item K V) (cs : Cells K V) (sl : List (Slot K V)) {p q : ℕ}
        → Fresh i cs
        → IsDistinct cs
        → IsValid cs
        → Holds sl i (node_of a p q)
        → Linked sl no_link cs no_link
        → (sl' : List (Slot K V)) × (push_head i (linked s sl (first cs no_link) (last no_link cs))
            ≡ some (linked s sl' i (last no_link ((i, a) ∷ cs))))
          × Linked sl' no_link ((i, a) ∷ cs) no_link
          × Off ((i, a) ∷ cs) sl sl'
    unfolding push_head
    push_head-Linked i a [] sl f d v e l =
        let n = occupied (node_of a no_link no_link) in
        (
          set sl i n,
          rw (update-Holds (with_links no_link no_link) i (linked s sl no_link no_link) e) refl,
          (get_elem?-set_self sl i n (get_elem?-bound sl i e), tt),
          record { same = λ j f. get_elem?-set_ne sl i j n f.0; size = length-set sl i n },
        )
    push_head-Linked i a (c ∷ cs) sl (f, fs) d v e l =
        let n = occupied (node_of a no_link c.0) in
        let sl₁ = set sl i n in
        let t = last c.0 cs in
        let k =
          Linked-frame sl sl₁ no_link (c ∷ cs) no_link (set-frame sl i n (c ∷ cs) (f, fs)) l in
        let m = occupied (node_of c.1 i (first cs no_link)) in
        let head_there : (c.0 == no_link) ≡ false = ==_of_ne c.0 no_link v.0 in
        let tail_there : (t == no_link) ≡ false = ==_of_ne t no_link (IsValid-last c cs v) in
        (
          set sl₁ c.0 m,
          rw
              (
                update-Holds (with_links no_link c.0) i (linked s sl c.0 t) e,
                head_there,
                update-Holds (with_prev i) c.0 (linked s sl₁ c.0 t) k.0,
                tail_there,
              )
              refl,
          (
            get_elem?-set_ne sl₁ c.0 i m f ∙ get_elem?-set_self sl i n (get_elem?-bound sl i e),
            Linked-set_first sl₁ no_link i c cs no_link d k,
          ),
          record {
            same = λ j g. get_elem?-set_ne sl₁ c.0 j m g.1.0 ∙ get_elem?-set_ne sl i j n g.0;
            size = length-set sl₁ c.0 m ∙ length-set sl i n;
          },
        )
