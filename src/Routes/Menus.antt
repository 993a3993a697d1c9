-- ===== src/Routes/Menus.antt =====
-- The menus and the headers of the pages: components/MainMenu.tsx and components/Header.tsx of
-- web/src-web/src, and what views/clusters-management/index.tsx and views/cluster-list/index.tsx put
-- around their contents.
use makoon.Prelude.{
  Bool, true, false, Option, none, some, List, [], ◌∷◌, ◌++◌, Text, units, is_empty, if◌then◌else◌,
}
use makoon.World.{World}
use makoon.Dialogs.{is_on, on_dialog}
use makoon.Routes.{locked, loading_indicator_delete_cluster}

-- `MenuItem` and `SubMenu`: an entry with its name and the location it leads to. The library for routes
-- tells whether an entry of the inner menu is active.
pub record MenuItem : Type 0 where
  pub name : Text
  pub to : Text

abbrev pub main_menu : List MenuItem
main_menu = record { name = units "Clusters"; to = units "/list" } ∷ []

-- The inner menu, whose locations are relative to that of the cluster.
abbrev pub sub_menu : List MenuItem
sub_menu =
    record { name = units "Nodes"; to = units "nodes" }
    ∷ record { name = units "Helm apps"; to = units "apps" }
    ∷ record { name = units "Workloads"; to = units "workloads" }
    ∷ record { name = units "Logs"; to = units "logs" }
    ∷ []

-- `SubMenuLinkButton`.
abbrev pub click_link_button : Bool → (World → World) → World → World
click_link_button disabled on_click w = if disabled then w else on_click w

-- The button "Destroy".
abbrev pub click_destroy : World → World
click_destroy w =
    click_link_button (locked w) (on_dialog (λ d. record d { delete_confirm = true })) w

-- What the confirmation shows: the input for the name, or the sign that the cluster is being deleted.
pub data ConfirmationBody : Type 0 where
  cluster_name_input deleting_cluster : ConfirmationBody

abbrev pub confirmation_body : World → Option ConfirmationBody
confirmation_body w =
    if w.dialog.delete_confirm
    then some
        (if is_on loading_indicator_delete_cluster w then deleting_cluster else cluster_name_input)
    else none

-- `Props` of Header.tsx.
pub record Header : Type 0 where
  pub title : Text
  pub title_prefix : Option Text
  -- the label of the button beside the title, if any
  pub content : Option Text

-- The header of the page of a cluster, where the name is the parameter of the route.
abbrev pub cluster_header : Option Text → Header
cluster_header cluster_name = record {
  title = elim cluster_name [ none ↦ [] | some n ↦ n ];
  title_prefix = some (units "Cluster");
  content = none;
}

abbrev pub list_header : Header
list_header = record {
  title = units "Clusters";
  title_prefix = some (units "Running");
  content = some (units "Create cluster");
}

abbrev shown_if_any : Option Text → List Text
shown_if_any none = []
shown_if_any (some t) = if is_empty t then [] else t ∷ []

-- The texts of a header from left to right, the last one the address of the host.
abbrev pub header_shown : Text → Header → List Text
header_shown host_ip h =
    shown_if_any h.title_prefix ++ (h.title ∷ []) ++ shown_if_any h.content ++ (host_ip ∷ [])

-- views/cluster-list/index.tsx: whether the wizard is shown.
pub record ListPage : Type 0 where
  pub creator_visible : Bool

abbrev pub click_create_cluster : ListPage → ListPage
click_create_cluster p = record { creator_visible = true }

abbrev pub hide_creator : ListPage → ListPage
hide_creator p = record { creator_visible = false }
