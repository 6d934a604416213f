-- ===== src/Api/Listing.antt =====
-- internal/proxy/routes.go: `All`, and `handleProxyRoutes` of internal/api/server.go.
use goship.Base.{
  Text, Bool, true, false, List, [], ◌∷◌, Option, none, some, get, ltb, ◌==◌, text_eq, text_beq_iff,
  length, ◌+◌, if◌then◌else◌, ◌≡◌, refl, arith, Bool-cases, inl, inr,
}
use goship.Api.Routes.{RouteTable, lookup}

pub record Route : Type 0 where
  pub domain : Text
  pub backend : Text

-- The order of cmp.Compare: byte by byte.
unfoldable pub text_leb : Text → Text → Bool
text_leb [] t = true
text_leb (a ∷ s) [] = false
text_leb (a ∷ s) (b ∷ t) =
    let rest = text_leb s t in if ltb a b then true else if ltb b a then false else rest

unfoldable pub insert_route : Route → List Route → List Route
unfolding text_leb
insert_route r [] = r ∷ []
insert_route r (x ∷ xs) =
    let rest = insert_route r xs in if text_leb r.domain x.domain then r ∷ x ∷ xs else x ∷ rest

-- `All`: the routes of the map, sorted.
unfoldable pub all_routes : RouteTable → List Route
unfolding insert_route
all_routes [] = []
all_routes ((d, b) ∷ t) = insert_route (record { domain = d; backend = b }) (all_routes t)

-- `handleProxyRoutes`
unfoldable pub handle_proxy_routes : Option RouteTable → List Route
unfolding all_routes
handle_proxy_routes none = []
handle_proxy_routes (some t) = all_routes t

text_leb_total : (s t : Text) → text_leb s t ≡ false → text_leb t s ≡ true
unfolding text_leb
text_leb_total [] t h = cc
text_leb_total (a ∷ s) [] h = refl
text_leb_total (a ∷ s) (b ∷ t) h = ground (arith, text_leb_total s t)

text_leb_refl : (s : Text) → text_leb s s ≡ true
unfolding text_leb
text_leb_refl [] = refl
text_leb_refl (a ∷ s) = ground (arith, text_leb_refl s)

abbrev pub is_before : Route → List Route → Bool
is_before r [] = true
is_before r (x ∷ xs) = text_leb r.domain x.domain

-- Each route is before the next.
abbrev pub IsSorted : List Route → Type 0
IsSorted [] = Unit
IsSorted (r ∷ rs) = (is_before r rs ≡ true) × IsSorted rs

is_before-insert_route :
    (x r : Route) (xs : List Route)
    → text_leb x.domain r.domain ≡ true
    → is_before x xs ≡ true
    → is_before x (insert_route r xs) ≡ true
unfolding insert_route
is_before-insert_route x r [] h b = h
is_before-insert_route x r (y ∷ ys) h b = elim (Bool-cases (text_leb r.domain y.domain)) [
  | inl t ↦ rw t h
  | inr f ↦ rw f b
]

insert_route-IsSorted : (r : Route) (xs : List Route) → IsSorted xs → IsSorted (insert_route r xs)
unfolding insert_route
insert_route-IsSorted r [] h = (refl, tt)
insert_route-IsSorted r (x ∷ xs) h = elim (Bool-cases (text_leb r.domain x.domain)) [
  | inl t ↦ rw t (t, h)
  | inr f ↦ rw f (
    is_before-insert_route x r xs (text_leb_total r.domain x.domain f) h.0,
    insert_route-IsSorted r xs h.1,
  )
]

-- The backend of the first route of a domain.
unfoldable pub backend_in : Text → List Route → Option Text
backend_in k [] = none
backend_in k (r ∷ rs) = if r.domain == k then some r.backend else backend_in k rs

backend_in-insert_route :
    (r : Route) (xs : List Route) (k : Text)
    → backend_in k (insert_route r xs) ≡ (if r.domain == k then some r.backend else backend_in k xs)
unfolding insert_route backend_in
backend_in-insert_route r [] k = refl
backend_in-insert_route r (x ∷ xs) k = ground (
  arith,
  backend_in-insert_route r xs k,
  text_beq_iff r.domain k,
  text_beq_iff x.domain k,
  text_leb_refl k,
)

length-insert_route : (r : Route) (xs : List Route) → length (insert_route r xs) ≡ 1 + length xs
unfolding insert_route
length-insert_route r [] = refl
length-insert_route r (x ∷ xs) = ground (arith, length-insert_route r xs)

-- The listed routes are sorted, as many as the table has, and lead each domain where the table does.
pub all_routes_exact :
    (t : RouteTable)
    → IsSorted (all_routes t)
      × (length (all_routes t) ≡ length t)
      × ((k : Text) → backend_in k (all_routes t) ≡ lookup k t)
unfolding all_routes backend_in lookup get
all_routes_exact [] = (tt, refl, λ k. refl)
all_routes_exact ((d, b) ∷ t) =
    let r : Route = record { domain = d; backend = b } in
    let (s, l, f) = all_routes_exact t in
    (
      insert_route-IsSorted r (all_routes t) s,
      ground (arith, length-insert_route r (all_routes t), l),
      λ k. ground (arith, backend_in-insert_route r (all_routes t) k, f k),
    )
