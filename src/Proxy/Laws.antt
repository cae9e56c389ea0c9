-- ===== src/Proxy/Laws.antt =====
-- The headers that the proxy route passes on, in both directions.
use slai.Base.{
  ◌≡◌, inl, inr, refl, Bool, true, false, not, ◌||◌, [], ◌∷◌, Option, none, some, if◌then◌else◌,
  codes, if_split, Bool-cases, arith, ap, sym, ◌∙◌, subst,
}
use slai.Text.{Str, equals}
use slai.Text.Equality.{equals_iff}
use slai.Proxy.{
  Headers, get, set, set_if, is_hop_by_hop, Request, Response, Init, init_of, request_headers,
  response_headers, proxy,
}

-- The value of the last header of a name.
unfoldable pub last_value : Str → Headers → Option Str
last_value key [] = none
last_value key ((k, value) ∷ headers) = elim (last_value key headers) [
  | some v ↦ some v
  | none ↦ if equals key k then some value else none
]

abbrev pub or_else : Option Str → Option Str → Option Str
or_else none b = b
or_else (some a) b = some a

equals-same : (key k k2 : Str) → equals key k ≡ true → equals key k2 ≡ true → equals k k2 ≡ true
equals-same key k k2 h h2 =
    (equals_iff k k2).1 (sym ((equals_iff key k).0 h) ∙ (equals_iff key k2).0 h2)

same_test :
    (x y z : Option Str) (a : Bool) → (if a then x else z) ≡ (if a then x else if a then y else z)
same_test x y z true = refl
same_test x y z false = refl

swap :
    (x y z : Option Str) (a b : Bool)
    → (a ≡ true → b ≡ true → ⊥)
    → (if b then y else if a then x else z) ≡ (if a then x else if b then y else z)
swap x y z true true h = elim (h refl refl) [ ]
swap x y z true false h = refl
swap x y z false true h = refl
swap x y z false false h = refl

get-set :
    (key k value : Str) (hs : Headers)
    → get key (set k value hs) ≡ (if equals key k then some value else get key hs)
unfolding get set
get-set key k value [] = refl
get-set key k value ((k2, v2) ∷ hs) =
    let later = get-set key k value hs in
    if_split
      (λ (r : Headers).
        get key r
        ≡ (if equals key k then some value else if equals key k2 then some v2 else get key hs))
      (equals k k2)
      (λ e.
        subst
          (λ (n : Str).
            (if equals key k then some value else get key hs)
            ≡ (if equals key k then some value else if equals key n then some v2 else get key hs))
          ((equals_iff k k2).0 e) (same_test (some value) (some v2) (get key hs) (equals key k)))
      (λ e.
        ap (λ r. if equals key k2 then some v2 else r) later
        ∙ swap (some value) (some v2) (get key hs) (equals key k) (equals key k2)
            (λ a b. ground (arith, e, equals-same key k k2 a b)))

or_if :
    (b : Bool) (value : Str) (o : Option Str)
    → (if b then some value else o) ≡ or_else (if b then some value else none) o
or_if true value o = refl
or_if false value o = refl

hop-equals :
    (key k : Str) → is_hop_by_hop key ≡ false → is_hop_by_hop k ≡ true → equals key k ≡ false
hop-equals key k n h = elim (Bool-cases (equals key k)) [
  | inl e ↦ ground (arith, h, n, ap is_hop_by_hop ((equals_iff key k).0 e))
  | inr e ↦ e
]

-- A header that the route passes on or drops, in front of the rest.
after_one :
    (key k value : Str) (so_far : Headers) (rest : Option Str)
    → is_hop_by_hop key ≡ false
    → or_else rest (get key (if not (is_hop_by_hop k) then set k value so_far else so_far))
      ≡ or_else
          (elim rest [ some v ↦ some v | none ↦ if equals key k then some value else none ])
          (get key so_far)
after_one key k value so_far (some v) n = refl
after_one key k value so_far none n =
    if_split
      (λ (r : Headers).
        get key r ≡ or_else (if equals key k then some value else none) (get key so_far))
      (not (is_hop_by_hop k))
      (λ e. get-set key k value so_far ∙ or_if (equals key k) value (get key so_far))
      (λ e. rw (hop-equals key k n (ground (arith, e))) refl)

get-response_headers_from :
    (key : Str) (so_far hs : Headers)
    → is_hop_by_hop key ≡ false
    → get key (response_headers so_far hs) ≡ or_else (last_value key hs) (get key so_far)
unfolding response_headers last_value
get-response_headers_from key so_far [] n = refl
get-response_headers_from key so_far ((k, value) ∷ hs) n =
    get-response_headers_from key (if not (is_hop_by_hop k) then set k value so_far else so_far) hs
      n
    ∙ after_one key k value so_far (last_value key hs) n

get-hop_by_hop :
    (key : Str) (so_far hs : Headers)
    → is_hop_by_hop key ≡ true
    → get key (response_headers so_far hs) ≡ get key so_far
unfolding response_headers
get-hop_by_hop key so_far [] h = refl
get-hop_by_hop key so_far ((k, value) ∷ hs) h =
    get-hop_by_hop key (if not (is_hop_by_hop k) then set k value so_far else so_far) hs h
    ∙ if_split (λ (r : Headers). get key r ≡ get key so_far) (not (is_hop_by_hop k))
        (λ e. get-set key k value so_far ∙ rw (other k e) refl) (λ e. refl)
  where
    other : (k : Str) → not (is_hop_by_hop k) ≡ true → equals key k ≡ false
    other k e = elim (Bool-cases (equals key k)) [
      | inl q ↦ ground (arith, e, h, ap is_hop_by_hop ((equals_iff key k).0 q))
      | inr q ↦ q
    ]

or_else-none : (o : Option Str) → or_else o none ≡ o
or_else-none none = refl
or_else-none (some v) = refl

-- A header of the console's answer has the value of the last header of that name in the API's
-- answer, unless it is a hop-by-hop header, which the console's answer does not have.
pub get-proxy :
    (fetch : Init → Response) (request : Request) (key : Str)
    → get key (proxy fetch request).headers
      ≡ (if is_hop_by_hop key then none else last_value key (fetch (init_of request)).headers)
unfolding proxy get
get-proxy fetch request key =
    let hs = (fetch (init_of request)).headers in
    elim (Bool-cases (is_hop_by_hop key)) [
      | inl h ↦ get-hop_by_hop key [] hs h ∙ rw h refl
      | inr h ↦ get-response_headers_from key [] hs h ∙ or_else-none (last_value key hs) ∙ rw h refl
    ]

-- `value || undefined`
abbrev pub not_empty : Option Str → Option Str
not_empty none = none
not_empty (some []) = none
not_empty (some (c ∷ s)) = some (c ∷ s)

get-set_if :
    (key k : Str) (o : Option Str) (hs : Headers)
    → get key (set_if k o hs)
      ≡ (if equals key k then or_else (not_empty o) (get key hs) else get key hs)
unfolding set_if
get-set_if key k none hs =
    if_split (λ (r : Option Str). get key hs ≡ r) (equals key k) (λ e. refl) (λ e. refl)
get-set_if key k (some []) hs =
    if_split (λ (r : Option Str). get key hs ≡ r) (equals key k) (λ e. refl) (λ e. refl)
get-set_if key k (some (c ∷ s)) hs = get-set key k (c ∷ s) hs

module _ (key c t : Str) (hs : Headers) (apart : equals c t ≡ false) where
  two_set :
      (a b : Bool)
      → equals key c ≡ a
      → equals key t ≡ b
      → get key (set_if c (get c hs) (set_if t (get t hs) []))
        ≡ (if a || b then not_empty (get key hs) else none)
  unfolding get
  two_set true true ha hb = ground (arith, apart, equals-same key c t ha hb)
  two_set true false ha hb =
      get-set_if key c (get c hs) (set_if t (get t hs) [])
      ∙ rw (ha, get-set_if key t (get t hs) [], hb)
          (or_else-none (not_empty (get c hs))
            ∙ ap (λ k. not_empty (get k hs)) (sym ((equals_iff key c).0 ha)))
  two_set false true ha hb =
      get-set_if key c (get c hs) (set_if t (get t hs) [])
      ∙ rw (ha, get-set_if key t (get t hs) [], hb)
          (or_else-none (not_empty (get t hs))
            ∙ ap (λ k. not_empty (get k hs)) (sym ((equals_iff key t).0 hb)))
  two_set false false ha hb =
      get-set_if key c (get c hs) (set_if t (get t hs) [])
      ∙ rw (ha, get-set_if key t (get t hs) [], hb) refl

-- The API receives the content type and the cookies of a request, when they are there and not
-- empty, and no other header.
pub get-init_of :
    (request : Request) (key : Str)
    → get key (init_of request).headers ≡ (
        if equals key (codes "cookie") || equals key (codes "content-type")
        then not_empty (get key request.headers)
        else none)
unfolding init_of request_headers equals
get-init_of request key =
    two_set key (codes "cookie") (codes "content-type") request.headers refl
      (equals key (codes "cookie")) (equals key (codes "content-type")) refl refl
