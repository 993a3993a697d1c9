-- ===== src/Pages/NodesPage.antt =====
-- The state of web/src-web/src/views/clusters-management/components/nodes/index.tsx, and that of
-- web/src-web/src/views/cluster-creator/steps/nodes/NodesSection.tsx: which dialogs are shown.
use makoon.Prelude.{
  ◌∙◌, List, [], ◌∷◌, All, ◌≡◌, refl, arith, Bool, true, false, not, Option, none, some, Text,
  if◌then◌else◌,
}
use makoon.Model.{ClusterNodeType, master}
use makoon.World.{ClusterManagementStore}
use makoon.Dialogs.{is_locked_page}

pub record NodesPage : Type 0 where
  pub show_add_node_dialog : Bool
  pub add_node_type : ClusterNodeType
  pub selected_node : Option Text

abbrev pub first_rendered : NodesPage
first_rendered = record {
  show_add_node_dialog = false;
  add_node_type = master;
  selected_node = none;
}

-- The button "Add node" above the table of masters or of workers, which is disabled on a locked page.
unfoldable pub click_add : ClusterNodeType → ClusterManagementStore → NodesPage → NodesPage
click_add t m p =
    if is_locked_page m then p else record p { add_node_type = t; show_add_node_dialog = true }

-- `setVisible` of AddNodeDialog and of EditNodeDialog.
abbrev pub set_add_visible : Bool → NodesPage → NodesPage
set_add_visible v p = record p { show_add_node_dialog = v }

unfoldable pub set_edit_visible : Bool → NodesPage → NodesPage
set_edit_visible v p = if not v then record p { selected_node = none } else p

-- A click on a row of either table.
unfoldable pub click_row : Text → ClusterManagementStore → NodesPage → NodesPage
click_row id m p = if not (is_locked_page m) then record p { selected_node = some id } else p

-- The dialogs that are rendered: AddNodeDialog with its type, EditNodeDialog with its node.
unfoldable pub add_dialog : NodesPage → Option ClusterNodeType
add_dialog p = if p.show_add_node_dialog then some p.add_node_type else none

abbrev pub edit_dialog : NodesPage → Option Text
edit_dialog p = p.selected_node

-- What can happen on the page, each with the cluster as it is then.
pub data Event : Type 0 where
  add_clicked : ClusterNodeType → ClusterManagementStore → Event
  row_clicked : Text → ClusterManagementStore → Event
  add_closed edit_closed : Event

abbrev handle : Event → NodesPage → NodesPage
handle (add_clicked t m) p = click_add t m p
handle (row_clicked id m) p = click_row id m p
handle add_closed p = set_add_visible false p
handle edit_closed p = set_edit_visible false p

abbrev pub handle_all : List Event → NodesPage → NodesPage
handle_all [] p = p
handle_all (e ∷ es) p = handle_all es (handle e p)

-- Whether the page is locked at a click.
abbrev pub is_locked_event : Event → Bool
is_locked_event (add_clicked t m) = is_locked_page m
is_locked_event (row_clicked id m) = is_locked_page m
is_locked_event _ = true

-- Whether an event is neither a click on a button above a table nor the end of AddNodeDialog.
abbrev pub is_other_event : Event → Bool
is_other_event (row_clicked id m) = true
is_other_event edit_closed = true
is_other_event _ = false

click_add-locked :
    (t : ClusterNodeType) (m : ClusterManagementStore) (p : NodesPage)
    → is_locked_page m ≡ true
    → click_add t m p ≡ p
unfolding click_add
click_add-locked t m p l = ground arith

click_row-locked :
    (id : Text) (m : ClusterManagementStore) (p : NodesPage)
    → is_locked_page m ≡ true
    → click_row id m p ≡ p
unfolding click_row
click_row-locked id m p l = ground arith

-- No dialog is shown on a page that has none, while its cluster is locked at every click.
pub handle_all-locked :
    (es : List Event) (p : NodesPage)
    → All (λ e. is_locked_event e ≡ true) es
    → (add_dialog p ≡ none) × (edit_dialog p ≡ none)
    → (add_dialog (handle_all es p) ≡ none) × (edit_dialog (handle_all es p) ≡ none)
unfolding add_dialog set_edit_visible
handle_all-locked [] p h none_shown = none_shown
handle_all-locked (add_clicked t m ∷ es) p (l, h) none_shown =
    handle_all-locked es (click_add t m p) h (rw (click_add-locked t m p l) none_shown)
handle_all-locked (row_clicked id m ∷ es) p (l, h) none_shown =
    handle_all-locked es (click_row id m p) h (rw (click_row-locked id m p l) none_shown)
handle_all-locked (add_closed ∷ es) p (l, h) (a, b) = handle_all-locked es _ h (refl, b)
handle_all-locked (edit_closed ∷ es) p (l, h) (a, b) = handle_all-locked es _ h (a, refl)

handle_all-other :
    (es : List Event) (p : NodesPage)
    → All (λ e. is_other_event e ≡ true) es
    → add_dialog (handle_all es p) ≡ add_dialog p
unfolding add_dialog click_row set_edit_visible
handle_all-other [] p h = refl
handle_all-other (add_clicked t m ∷ es) p (l, h) = absurd (ground arith)
handle_all-other (row_clicked id m ∷ es) p (l, h) =
    handle_all-other es (click_row id m p) h ∙ ground arith
handle_all-other (add_closed ∷ es) p (l, h) = absurd (ground arith)
handle_all-other (edit_closed ∷ es) p (l, h) = handle_all-other es (set_edit_visible false p) h

-- Whatever has been clicked before, the button above a table opens AddNodeDialog for the type of that
-- table, and the dialog keeps that type until it is closed.
pub handle_all-add_clicked :
    (before after : List Event) (t : ClusterNodeType) (m : ClusterManagementStore) (p : NodesPage)
    → is_locked_page m ≡ false
    → All (λ e. is_other_event e ≡ true) after
    → add_dialog (handle_all after (handle (add_clicked t m) (handle_all before p))) ≡ some t
unfolding click_add add_dialog
handle_all-add_clicked before after t m p free others =
    handle_all-other after (handle (add_clicked t m) (handle_all before p)) others ∙ rw free refl
