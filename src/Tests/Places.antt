-- ===== src/Tests/Places.antt =====
-- The theorems on the placement of cards, at one card inside and one card outside.
use hubble_ui.Prelude.{◌≡◌, refl, Str, str_Eq, codes, some, List, [], ◌∷◌, length, All, str_eq}
use mathlib.Core.List.{Perm}
use hubble_ui.Prelude.Int.{pos}
use hubble_ui.Prelude.Maps.{get}
use hubble_ui.ServiceMap.Card.{Card}
use hubble_ui.Placement.Groups.{
  PlacementKind, PlacementMeta, from_world, inside_with_connections, kind_Eq,
}
use hubble_ui.Placement.Columns.{build_placement_columns, ceil_sqrt}
use hubble_ui.Placement.Columns.Laws.{IsSorted, IsColumn, joined, build_placement_columns-IsColumn}
use hubble_ui.Placement.Coordinates.{Wh, PlacementEntry, assign_coordinates}
use hubble_ui.Placement.Coordinates.Apart.{Apart}
use hubble_ui.Placement.Coordinates.Laws.{assign_coordinates-Apart}

abbrev card_of_id : Str → Card
card_of_id id = record {
  service = record {
    id = id;
    service_namespace = codes "default";
    labels = [];
    dns_names = [];
    workloads = [];
    identity_number = 0;
  };
  access_points = [];
  identity = 0;
}

abbrev inside : PlacementMeta
inside = record { kind = inside_with_connections; card = card_of_id (codes "db"); weight = pos 1 }

abbrev outside : PlacementMeta
outside = record { kind = from_world; card = card_of_id (codes "host"); weight = pos 1000 }

abbrev dims : List (Str × Wh)
dims = (codes "db", record { w = 560; h = 120 }) ∷ []

abbrev columns : List (PlacementKind × List (List PlacementMeta))
columns = (inside_with_connections, (inside ∷ []) ∷ []) ∷ (from_world, (outside ∷ []) ∷ []) ∷ []

abbrev place_of_db : PlacementEntry
place_of_db = record {
  kind = inside_with_connections;
  card = card_of_id (codes "db");
  geometry = record { x = pos 760; y = 0; w = 560; h = 120 };
}

abbrev place_of_host : PlacementEntry
place_of_host = record {
  kind = from_world;
  card = card_of_id (codes "host");
  geometry = record { x = pos 0; y = 60; w = 560; h = 0 };
}

db_placed : get (codes "db") (assign_coordinates 1 dims columns) ≡ some place_of_db
unfolding assign_coordinates str_eq
db_placed = refl

host_placed : get (codes "host") (assign_coordinates 1 dims columns) ≡ some place_of_host
unfolding assign_coordinates str_eq
host_placed = refl

assign_coordinates-Apart_example : Apart place_of_db place_of_host
assign_coordinates-Apart_example =
    assign_coordinates-Apart 1 dims columns (codes "db") (codes "host") place_of_db place_of_host
      (unfold str_eq in refl) db_placed host_placed

build_placement_columns-IsColumn_example :
    IsSorted (joined (build_placement_columns (inside ∷ outside ∷ [])))
    × Perm (joined (build_placement_columns (inside ∷ outside ∷ []))) (inside ∷ outside ∷ [])
    × All
        (IsColumn (ceil_sqrt (length (inside ∷ outside ∷ []))))
        (build_placement_columns (inside ∷ outside ∷ []))
build_placement_columns-IsColumn_example = build_placement_columns-IsColumn (inside ∷ outside ∷ [])
