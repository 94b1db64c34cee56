-- ===== src/Security/Engine/Inputs.antt =====
-- security.go: which texts of a request are its inputs.
use Prim.Native.String
use security_go.Shared.{
  ◌≡◌, refl, sym, ap, subst, inl, inr, ◌++◌, String, List, [], ◌∷◌, Option, none, some, map, In,
  In-append, In-append_left, In-append_right,
}
use security_go.Security.Engine.{
  Request, url_inputs, header_inputs, cookie_inputs, collect_request_inputs,
}

-- An input of a request: the text of its URL, the re-encoded query, a value of a header behind the header's
-- name, or a cookie.
pub data IsInput (r : Request) (text : String) : Type 0 where
  url : (query : String) → r.url ≡ some (text, query) → IsInput r text
  query : (url_text : String) → r.url ≡ some (url_text, text) → IsInput r text
  header :
      (key : String) (vals : List String) (value : String)
      → In (key, vals) r.header
      → In value vals
      → text ≡ String.◌++◌ key (String.◌++◌ ": " value)
      → IsInput r text
  cookie :
      (name value : String)
      → In (name, value) r.cookies
      → text ≡ String.◌++◌ name (String.◌++◌ "=" value)
      → IsInput r text

module _ {A : Type 0} (f : A → String) where
  In-map : (x : A) (xs : List A) → In x xs → In (f x) (map f xs)
  In-map x (y ∷ xs) (inl e) = inl (ap f e)
  In-map x (y ∷ xs) (inr i) = inr (In-map x xs i)
  In-map x [] i = elim i [ ]

  map-In : (text : String) (xs : List A) → In text (map f xs) → (x : A) × In x xs × (text ≡ f x)
  map-In text (y ∷ xs) (inl e) = (y, inl refl, sym e)
  map-In text (y ∷ xs) (inr i) = let (x, j, e) = map-In text xs i in (x, inr j, e)
  map-In text [] i = elim i [ ]

abbrev line : String → String → String
line key value = String.◌++◌ key (String.◌++◌ ": " value)

header_inputs-In :
    (text : String) (hs : List (String × List String))
    → In text (header_inputs hs)
    → (key : String) × (vals : List String) × (value : String) × In (key, vals) hs
      × In value vals
      × (text ≡ line key value)
unfolding header_inputs
header_inputs-In text [] i = elim i [ ]
header_inputs-In text ((key, vals) ∷ hs) i = elim (In-append text (map (line key) vals) _ i) [
  | inl here ↦
      let (value, j, e) = map-In (line key) text vals here in (key, vals, value, inl refl, j, e)
  | inr later ↦
      let (key', vals', value, k, j, e) = header_inputs-In text hs later in
      (key', vals', value, inr k, j, e)
]

In-header_inputs :
    (key : String) (vals : List String) (value : String) (hs : List (String × List String))
    → In (key, vals) hs
    → In value vals
    → In (line key value) (header_inputs hs)
unfolding header_inputs
In-header_inputs key vals value [] i j = elim i [ ]
In-header_inputs key vals value ((key', vals') ∷ hs) (inl e) j =
    subst (λ h. In (line key value) (map (line h.0) h.1 ++ header_inputs hs)) (sym e)
      (In-append_left _ (map (line key) vals) _ (In-map (line key) value vals j))
In-header_inputs key vals value ((key', vals') ∷ hs) (inr i) j =
    In-append_right _ (map (line key') vals') _ (In-header_inputs key vals value hs i j)

url_inputs-IsInput :
    (text : String) (r : Request) (o : Option (String × String))
    → r.url ≡ o
    → In text (url_inputs o)
    → IsInput r text
unfolding url_inputs
url_inputs-IsInput text r none e i = elim i [ ]
url_inputs-IsInput text r (some (u, q)) e (inl h) = subst (IsInput r) h (url q e)
url_inputs-IsInput text r (some (u, q)) e (inr (inl h)) = subst (IsInput r) h (query u e)
url_inputs-IsInput text r (some (u, q)) e (inr (inr i)) = elim i [ ]

-- The texts that are collected are the inputs of the request.
pub collected-IsInput :
    (text : String) (r : Request) → In text (collect_request_inputs (some r)) → IsInput r text
unfolding collect_request_inputs cookie_inputs
collected-IsInput text r i = elim (In-append text (url_inputs r.url) _ i) [
  | inl here ↦ url_inputs-IsInput text r r.url refl here
  | inr later ↦ elim (In-append text (header_inputs r.header) _ later) [
    | inl here ↦
        let (key, vals, value, k, j, e) = header_inputs-In text r.header here in
        header key vals value k j e
    | inr here ↦
        let (c, k, e) = map-In (λ c. String.◌++◌ c.0 (String.◌++◌ "=" c.1)) text r.cookies here in
        cookie c.0 c.1 k e
  ]
]

In-url_inputs :
    (r : Request) (u q : String)
    → r.url ≡ some (u, q)
    → In u (url_inputs r.url) × In q (url_inputs r.url)
unfolding url_inputs
In-url_inputs r u q e = rw (e, url_inputs) (inl refl, inr (inl refl))

pub IsInput-collected :
    (text : String) (r : Request) → IsInput r text → In text (collect_request_inputs (some r))
unfolding collect_request_inputs cookie_inputs
IsInput-collected text r (url q e) =
    In-append_left text (url_inputs r.url) _ (In-url_inputs r text q e).0
IsInput-collected text r (query u e) =
    In-append_left text (url_inputs r.url) _ (In-url_inputs r u text e).1
IsInput-collected text r (header key vals value i j e) = In-append_right text (url_inputs r.url) _ (
    In-append_left text (header_inputs r.header) _ (
      subst (λ x. In x (header_inputs r.header)) (sym e)
        (In-header_inputs key vals value r.header i j)))
IsInput-collected text r (cookie name value i e) = In-append_right text (url_inputs r.url) _ (
    In-append_right text (header_inputs r.header) _ (
      subst (λ x. In x (map (λ c. String.◌++◌ c.0 (String.◌++◌ "=" c.1)) r.cookies)) (sym e)
        (In-map (λ c. String.◌++◌ c.0 (String.◌++◌ "=" c.1)) (name, value) r.cookies i)))
