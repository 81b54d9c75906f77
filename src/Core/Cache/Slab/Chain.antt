-- ===== src/Core/Cache/Slab/Chain.antt =====
-- The linked list in the slots: the cells in the order of their last use, each an index with what is
-- stored there.
use sumidero.Prelude.{
  ℕ, ◌≡◌, ◌≢◌, refl, sym, ap, ◌∙◌, some, List, [], ◌∷◌, ◌++◌, All, All-split, All-of_Elem,
  All-append, length, get_elem?, get_elem?-bound, get_elem?-set_self, get_elem?-set_ne, set,
}
use sumidero.Core.Cache.Slab.{Node, Slot, occupied}

pub record Item (K V : Type 0) : Type 0 where
  pub key : K
  pub entry : V
  pub bytes : ℕ

abbrev pub Cells : Type 0 → Type 0 → Type 0
Cells K V = List (ℕ × Item K V)

module _ {K V : Type 0} where
  abbrev pub node_of : Item K V → ℕ → ℕ → Node K V
  node_of a p q = record { key = a.key; entry = a.entry; bytes = a.bytes; prev = p; next = q }

  -- The first index of a chain that ends before `q`, and the last of one that begins after `p`.
  abbrev pub first : Cells K V → ℕ → ℕ
  first [] q = q
  first (c ∷ cs) q = c.0

  abbrev pub last : ℕ → Cells K V → ℕ
  last p [] = p
  last p (c ∷ cs) = last c.0 cs

  abbrev pub Holds : List (Slot K V) → ℕ → Node K V → Type 0
  Holds sl i n = get_elem? sl i ≡ some (occupied n)

  -- After `p` and before `q`, the links of the slots lead through the cells, both ways.
  abbrev pub Linked : List (Slot K V) → ℕ → Cells K V → ℕ → Type 0
  Linked sl p [] q = Unit
  Linked sl p (c ∷ cs) q = Holds sl c.0 (node_of c.1 p (first cs q)) × Linked sl c.0 cs q

  abbrev pub Fresh : ℕ → Cells K V → Type 0
  Fresh i cs = All (λ c. c.0 ≢ i) cs

  abbrev pub IsDistinct : Cells K V → Type 0
  IsDistinct [] = Unit
  IsDistinct (c ∷ cs) = Fresh c.0 cs × IsDistinct cs

  -- The slots outside the cells stay as they are.
  pub record Off (cs : Cells K V) (sl sl' : List (Slot K V)) : Type 0 where
    pub same : (j : ℕ) → Fresh j cs → get_elem? sl' j ≡ get_elem? sl j
    pub size : length sl' ≡ length sl

  pub first-append : (xs ys : Cells K V) (q : ℕ) → first (xs ++ ys) q ≡ first xs (first ys q)
  first-append [] ys q = refl
  first-append (c ∷ xs) ys q = refl

  pub last-append : (p : ℕ) (xs ys : Cells K V) → last p (xs ++ ys) ≡ last (last p xs) ys
  last-append p [] ys = refl
  last-append p (c ∷ xs) ys = last-append c.0 xs ys

  pub Linked-split :
      (sl : List (Slot K V)) (p : ℕ) (xs ys : Cells K V) (q : ℕ)
      → Linked sl p (xs ++ ys) q
      → Linked sl p xs (first ys q) × Linked sl (last p xs) ys q
  Linked-split sl p [] ys q h = (tt, h)
  Linked-split sl p (c ∷ xs) ys q (e, h) =
      let (a, b) = Linked-split sl c.0 xs ys q h in ((rw first-append at e, a), b)

  pub Linked-append :
      (sl : List (Slot K V)) (p : ℕ) (xs ys : Cells K V) (q : ℕ)
      → Linked sl p xs (first ys q)
      → Linked sl (last p xs) ys q
      → Linked sl p (xs ++ ys) q
  Linked-append sl p [] ys q h k = k
  Linked-append sl p (c ∷ xs) ys q (e, h) k = (
    e ∙ ap (λ r. some (occupied (node_of c.1 p r))) (sym (first-append xs ys q)),
    Linked-append sl c.0 xs ys q h k,
  )

  -- The cells before and behind one cell, and that one, all have different indices.
  pub record Apart (xs : Cells K V) (c : ℕ × Item K V) (ys : Cells K V) : Type 0 where
    pub before : IsDistinct xs
    pub behind : IsDistinct ys
    pub not_before : Fresh c.0 xs
    pub not_behind : Fresh c.0 ys
    pub across : All (λ d. Fresh d.0 xs) ys
    pub across_back : All (λ d. Fresh d.0 ys) xs
    pub rest : IsDistinct (xs ++ ys)

  pub IsDistinct-Apart :
      (xs : Cells K V) (c : ℕ × Item K V) (ys : Cells K V)
      → IsDistinct (xs ++ c ∷ ys)
      → Apart xs c ys
  IsDistinct-Apart [] c ys (f, d) = record {
    before = tt;
    behind = d;
    not_before = tt;
    not_behind = f;
    across = All-of_Elem (λ _. Unit) ys (λ _ _. tt);
    across_back = tt;
    rest = d;
  }
  IsDistinct-Apart (x ∷ xs) c ys (f, d) =
      let a = IsDistinct-Apart xs c ys d in
      let (f₁, (f₂, f₃)) = All-split (λ e. e.0 ≢ x.0) xs (c ∷ ys) f in
      record {
        before = (f₁, a.before);
        behind = a.behind;
        not_before = (λ q. f₂ (sym q), a.not_before);
        not_behind = a.not_behind;
        across = zip ys f₃ a.across;
        across_back = (f₃, a.across_back);
        rest = (All-append (λ e. e.0 ≢ x.0) xs ys f₁ f₃, a.rest);
      }
    where
      zip :
          (zs : Cells K V)
          → Fresh x.0 zs
          → All (λ d. Fresh d.0 xs) zs
          → All (λ d. Fresh d.0 (x ∷ xs)) zs
      zip [] h k = tt
      zip (z ∷ zs) (n, h) (k, ks) = ((λ q. n (sym q), k), zip zs h ks)

  -- A chain survives what happens outside it.
  pub Linked-frame :
      (sl sl' : List (Slot K V)) (p : ℕ) (cs : Cells K V) (q : ℕ)
      → All (λ c. get_elem? sl' c.0 ≡ get_elem? sl c.0) cs
      → Linked sl p cs q
      → Linked sl' p cs q
  Linked-frame sl sl' p [] q h l = tt
  Linked-frame sl sl' p (c ∷ cs) q (e, h) (f, l) = (e ∙ f, Linked-frame sl sl' c.0 cs q h l)

  pub set-frame :
      (sl : List (Slot K V)) (i : ℕ) (v : Slot K V) (cs : Cells K V)
      → Fresh i cs
      → All (λ c. get_elem? (set sl i v) c.0 ≡ get_elem? sl c.0) cs
  set-frame sl i v [] h = tt
  set-frame sl i v (c ∷ cs) (n, h) =
      (get_elem?-set_ne sl i c.0 v (λ e. n (sym e)), set-frame sl i v cs h)

  Fresh-last : (i : ℕ) (c : ℕ × Item K V) (cs : Cells K V) → Fresh i (c ∷ cs) → last c.0 cs ≢ i
  Fresh-last i c [] (n, h) = n
  Fresh-last i c (d ∷ ds) (n, h) = Fresh-last i d ds h

  -- The last cell leads on to `q`, and can be made to lead elsewhere.
  pub Linked-set-last :
      (sl : List (Slot K V)) (p : ℕ) (c : ℕ × Item K V) (cs : Cells K V) (q : ℕ)
      → IsDistinct (c ∷ cs)
      → Linked sl p (c ∷ cs) q
      → (b : Item K V) × (p' : ℕ) × Holds sl (last c.0 cs) (node_of b p' q)
        × ((q' : ℕ) → Linked (set sl (last c.0 cs) (occupied (node_of b p' q'))) p (c ∷ cs) q')
  Linked-set-last sl p c [] q d (e, _) =
      (c.1, p, e, λ q'. (get_elem?-set_self sl c.0 _ (get_elem?-bound sl c.0 e), tt))
  Linked-set-last sl p c (x ∷ xs) q (f, d) (e, l) =
      let (b, p', h, k) = Linked-set-last sl c.0 x xs q d l in
      (b, p', h, λ q'. (get_elem?-set_ne sl (last x.0 xs) c.0 _ (Fresh-last c.0 x xs f) ∙ e, k q'))

  -- The first cell leads back to `p`, and can be made to lead elsewhere.
  pub Linked-set_first :
      (sl : List (Slot K V)) (p p' : ℕ) (c : ℕ × Item K V) (cs : Cells K V) (q : ℕ)
      → IsDistinct (c ∷ cs)
      → Linked sl p (c ∷ cs) q
      → Linked (set sl c.0 (occupied (node_of c.1 p' (first cs q)))) p' (c ∷ cs) q
  Linked-set_first sl p p' c cs q (f, d) (e, l) = (
    get_elem?-set_self sl c.0 _ (get_elem?-bound sl c.0 e),
    Linked-frame sl _ c.0 cs q (set-frame sl c.0 _ cs f) l,
  )
