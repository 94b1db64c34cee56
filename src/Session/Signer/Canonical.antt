-- ===== src/Session/Signer/Canonical.antt =====
-- session/tamper.go: the text that is signed determines the parameters, the time and the nonce.
use text.Mathlib.Text.{◌==◌}
use security_go.Shared.{
  ◌≡◌, ◌≢◌, refl, sym, ap, ap₂, ◌∙◌, inl, inr, true, String, List, [], ◌∷◌, some, if◌then◌else◌,
  arith, Bool-cases, eq_iff,
}
use security_go.Shared.Assoc.{lookup, IsMap, Fresh}
use security_go.Shared.Text.{lacks, lacks-append, cut-injective_at, uncut, before}
use security_go.Session.Signer.{
  Packages, Laws, newline, insert_sorted, sort, pair, encode, canonical, message,
}

-- What a map holds is read from its sorted entries.
lookup-insert_sorted :
    (k v key : String) (m : List (String × String))
    → Fresh k m
    → lookup key (insert_sorted k v m) ≡ (if k == key then some v else lookup key m)
unfolding lookup insert_sorted
lookup-insert_sorted k v key [] f = refl
lookup-insert_sorted k v key ((j, w) ∷ m) (n, f) =
    let later = lookup-insert_sorted k v key m f in
    ground (arith, later, eq_iff k key, eq_iff j key, eq_iff k j)

Fresh-insert_sorted :
    (k j w : String) (m : List (String × String))
    → j ≢ k
    → Fresh k m
    → Fresh k (insert_sorted j w m)
unfolding insert_sorted
Fresh-insert_sorted k j w [] n f = (n, tt)
Fresh-insert_sorted k j w ((i, x) ∷ m) n (g, f) = elim (Bool-cases (before j i)) [
  | inl first ↦ rw first (n, (g, f))
  | inr last ↦ rw last (g, Fresh-insert_sorted k j w m n f)
]

Fresh-sort : (k : String) (m : List (String × String)) → Fresh k m → Fresh k (sort m)
unfolding sort
Fresh-sort k [] f = tt
Fresh-sort k ((j, w) ∷ m) (n, f) = Fresh-insert_sorted k j w (sort m) n (Fresh-sort k m f)

pub lookup-sort :
    (key : String) (m : List (String × String)) → IsMap m → lookup key (sort m) ≡ lookup key m
unfolding sort lookup
lookup-sort key [] h = refl
lookup-sort key ((k, v) ∷ m) (f, h) =
    lookup-insert_sorted k v key (sort m) (Fresh-sort k m f)
    ∙ ap (λ o. if k == key then some v else o) (lookup-sort key m h)

module _ (p : Packages) (laws : Laws p) where
  abbrev Pairs : Type 0
  Pairs = List (String × String)

  abbrev entry : String → String → String × String
  entry k v = (k, v)

  pair-injective : (k v k' v' : String) → pair p k v ≡ pair p k' v' → entry k v ≡ entry k' v'
  unfolding pair
  pair-injective k v k' v' e =
      let (a, b) =
        cut-injective_at b'=' "=" (p.escape k) (p.escape k') (p.escape v) (p.escape v') refl
          (laws.lacks-escape k).1 (laws.lacks-escape k').1 e in
      ap₂ (λ x y. (x, y)) (laws.escape-injective k k' a) (laws.escape-injective v v' b)

  lacks-pair :
      (k v : String) → (lacks b'&' (pair p k v) ≡ true) × (lacks newline (pair p k v) ≡ true)
  unfolding pair lacks
  lacks-pair k v =
      let kn = laws.lacks-escape k in
      let vn = laws.lacks-escape v in
      (
        lacks-append b'&' (p.escape k) _ kn.0 (lacks-append b'&' "=" (p.escape v) refl vn.0),
        lacks-append newline (p.escape k) _ kn.2 (lacks-append newline "=" (p.escape v) refl vn.2),
      )

  -- The empty text is no list of pairs.
  pair_not_empty : (k v : String) → ¬ "" ≡ pair p k v
  unfolding pair lacks
  pair_not_empty k v = uncut b'=' "=" "" (p.escape k) (p.escape v) refl refl

  encode-injective : (m m' : Pairs) → encode p m ≡ encode p m' → m ≡ m'
  unfolding encode lacks
  encode-injective [] [] e = refl
  encode-injective [] ((k, v) ∷ []) e = absurd (pair_not_empty k v e)
  encode-injective ((k, v) ∷ []) [] e = absurd (pair_not_empty k v (sym e))
  encode-injective [] ((k, v) ∷ x ∷ m) e =
      absurd (uncut b'&' "&" "" (pair p k v) (encode p (x ∷ m)) refl refl e)
  encode-injective ((k, v) ∷ x ∷ m) [] e =
      absurd (uncut b'&' "&" "" (pair p k v) (encode p (x ∷ m)) refl refl (sym e))
  encode-injective ((k, v) ∷ []) ((k', v') ∷ []) e = ap (λ x. x ∷ []) (pair-injective k v k' v' e)
  encode-injective ((k, v) ∷ []) ((k', v') ∷ x ∷ m) e =
      absurd
        (uncut b'&' "&" (pair p k v) (pair p k' v') (encode p (x ∷ m)) refl (lacks-pair k v).0 e)
  encode-injective ((k', v') ∷ x ∷ m) ((k, v) ∷ []) e = absurd (
      uncut b'&' "&" (pair p k v) (pair p k' v') (encode p (x ∷ m)) refl (lacks-pair k v).0 (sym e))
  encode-injective ((k, v) ∷ x ∷ m) ((k', v') ∷ x' ∷ m') e =
      let (a, b) =
        cut-injective_at b'&' "&" (pair p k v) (pair p k' v') (encode p (x ∷ m))
          (encode p (x' ∷ m')) refl (lacks-pair k v).0 (lacks-pair k' v').0 e in
      ap₂ ◌∷◌ (pair-injective k v k' v' a) (encode-injective (x ∷ m) (x' ∷ m') b)

  lacks-encode : (m : Pairs) → lacks newline (encode p m) ≡ true
  unfolding encode lacks
  lacks-encode [] = refl
  lacks-encode ((k, v) ∷ []) = (lacks-pair k v).1
  lacks-encode ((k, v) ∷ x ∷ m) =
      lacks-append newline (pair p k v) _ (lacks-pair k v).1
        (lacks-append newline "&" (encode p (x ∷ m)) refl (lacks-encode (x ∷ m)))

  -- Equal signed texts have equal times and nonces, and their maps of parameters read the same under
  -- every key: no character of one part can pass for another part.
  pub message-injective :
      (params params' : List (String × String)) (ts nonce ts' nonce' : String)
      → IsMap params
      → IsMap params'
      → lacks newline ts ≡ true
      → lacks newline ts' ≡ true
      → message p params ts nonce ≡ message p params' ts' nonce'
      → ((key : String) → lookup key params ≡ lookup key params') × (ts ≡ ts') × (nonce ≡ nonce')
  unfolding message canonical
  message-injective params params' ts nonce ts' nonce' v v' h h' e =
      let (a, b) =
        cut-injective_at newline "\n" (encode p (sort params)) (encode p (sort params')) _ _ refl
          (lacks-encode (sort params)) (lacks-encode (sort params')) e in
      let (c, d) = cut-injective_at newline "\n" ts ts' nonce nonce' refl h h' b in
      let same = encode-injective (sort params) (sort params') a in
      (
        λ key. sym (lookup-sort key params v) ∙ ap (lookup key) same ∙ lookup-sort key params' v',
        c,
        d,
      )
