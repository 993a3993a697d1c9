-- ===== src/Routes/Paths.antt =====
-- The routes of web/src-web/src/Router.tsx, and what the guard leaves of them.
use makoon.Prelude.{
  ◌≡◌, refl, Bool, true, false, List, [], ◌∷◌, ◌++◌, map, All, Text, units, if◌then◌else◌, ◌⊎◌, inl,
  inr,
}
use makoon.Routes.{occurs, guard, login_path}

-- What is on the screen: the views, of which only the page of a cluster has an outlet, or a redirection.
pub data Screen : Type 0 where
  login cluster_list cluster_management nodes apps workloads logs : Screen
  navigate : Text → Screen

-- The element of a route, under `Guard` or not.
pub record Element : Type 0 where
  pub guarded : Bool
  pub screen : Screen

pub record Route : Type 0 where
  pub path : Text
  pub element : Element
  -- the nested routes, each with its path
  pub children : List (Text × Element)

abbrev free : Screen → Element
free s = record { guarded = false; screen = s }

abbrev under_guard : Screen → Element
under_guard s = record { guarded = true; screen = s }

-- `Router`.
abbrev pub router : List Route
router =
    record { path = units "/"; element = free (navigate login_path); children = [] }
    ∷ record { path = login_path; element = free login; children = [] }
    ∷ record { path = units "/list"; element = under_guard cluster_list; children = [] }
    ∷ record {
      path = units "/cluster/:clusterName";
      element = under_guard cluster_management;
      children =
          (units "", free (navigate (units "nodes")))
          ∷ (units "nodes", free nodes)
          ∷ (units "apps", free apps)
          ∷ (units "workloads", free workloads)
          ∷ (units "logs", free logs)
          ∷ [];
    }
    ∷ []

-- The elements that a location can match: those of a route, or of a route and one nested in it, the
-- outer one first. Which location matches which is the business of the library for routes.
abbrev matches : Route → List (List Element)
matches r = (r.element ∷ []) ∷ map (λ (c : Text × Element). r.element ∷ c.1 ∷ []) r.children

abbrev pub all_matches : List Route → List (List Element)
all_matches [] = []
all_matches (r ∷ rs) = matches r ++ all_matches rs

-- What is rendered of matched elements: `Guard` renders what it has inside, with the outlet, or a
-- redirection in its place.
unfoldable pub rendered : Text → List Element → List Screen
unfolding guard
rendered cookie [] = []
rendered cookie (e ∷ es) =
    let below = rendered cookie es in
    if e.guarded
    then guard cookie (e.screen ∷ below) (navigate login_path ∷ [])
    else e.screen ∷ below

-- Whether a screen is the login or a redirection to it.
abbrev pub IsLogin : List Screen → Type 0
IsLogin s = (s ≡ login ∷ []) ⊎ (s ≡ navigate login_path ∷ [])

-- Without the cookie of a session every location that the router knows shows the login or leads there,
-- and nothing of a cluster is rendered.
pub rendered-router :
    (cookie : Text)
    → occurs (units "id=") cookie ≡ false
    → All (λ es. IsLogin (rendered cookie es)) (all_matches router)
unfolding rendered guard
rendered-router cookie e = rw e (
  inr refl,
  (
    inl refl,
    (inr refl, (inr refl, (inr refl, (inr refl, (inr refl, (inr refl, (inr refl, tt))))))),
  ),
)

-- With it every location shows all its elements.
pub rendered-router_logged :
    (cookie : Text)
    → occurs (units "id=") cookie ≡ true
    → All (λ es. rendered cookie es ≡ map (λ (e : Element). e.screen) es) (all_matches router)
unfolding rendered guard
rendered-router_logged cookie e =
    rw e (refl, (refl, (refl, (refl, (refl, (refl, (refl, (refl, (refl, tt)))))))))
