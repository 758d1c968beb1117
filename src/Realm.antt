-- ===== src/Realm.antt =====
-- electrumx/server/realm_index.py: the fields of a realm in a decoded payload. A text is the list of its
-- code points; `Meta` is what the CBOR decoder returns, with the keys that are texts.
pub mod Index
use rxin_dexer.Prelude.{
  ℕ, ◌+◌, ℤ, pos, negsuc, Bool, true, false, not, ◌&&◌, ◌||◌, Option, none, some, List, [], ◌∷◌,
  ltb, leb, ◌==◌, if◌then◌else◌, length, take, list_eq,
}
use rxin_dexer.Util.{Bytes}

abbrev pub Text : Type 0
Text = List ℕ

mutual
  pub data Meta : Type 0 where
    nothing : Meta
    boolean : Bool → Meta
    int : ℤ → Meta
    text : Text → Meta
    list : Items → Meta
    dict : Entries → Meta
    other : Meta

  pub data Items : Type 0 where
    no_items : Items
    item : Meta → Items → Items

  pub data Entries : Type 0 where
    no_entries : Entries
    entry : Text → Meta → Entries → Entries

-- `d.get(key)`
unfoldable pub get_meta : Text → Entries → Meta
get_meta key no_entries = nothing
get_meta key (entry k value es) =
    let rest = get_meta key es in if list_eq k key then value else rest

-- What a key has in a value that must be a dict, else None.
unfoldable pub field : Text → Meta → Meta
field key (dict es) = get_meta key es
field key _ = nothing

-- `isinstance(v, str)`, and then the text.
abbrev pub text_of : Meta → Option Text
text_of (text t) = some t
text_of _ = none

abbrev pub is_text : Text → Meta → Bool
is_text t (text u) = list_eq u t
is_text t _ = false

-- `[a-z0-9]` and `[a-z0-9_-]`
abbrev pub is_alnum : ℕ → Bool
is_alnum c = (leb 97 c && leb c 122) || (leb 48 c && leb c 57)

abbrev pub is_slug : ℕ → Bool
is_slug c = is_alnum c || (c == 95 || c == 45)

-- `[a-z0-9_-]*$`: the dollar sign also matches before a line feed at the end.
unfoldable pub slug_tail : Text → Bool
slug_tail [] = true
slug_tail (c ∷ []) = is_slug c || c == 10
slug_tail (c ∷ cs) = is_slug c && slug_tail cs

unfoldable pub matches_id : Text → Bool
matches_id [] = false
matches_id (c ∷ cs) = is_alnum c && slug_tail cs

unfoldable pub is_valid_realm_id : Text → Bool
is_valid_realm_id id = (leb 2 (length id) && leb (length id) 48) && matches_id id

-- The characters from the blank on, without DEL.
unfoldable pub without_controls : Text → Text
without_controls [] = []
without_controls (c ∷ cs) =
    let rest = without_controls cs in if leb 32 c && not (c == 127) then c ∷ rest else rest

unfoldable pub clean_str : Option Text → ℕ → Text
clean_str none max_len = []
clean_str (some v) max_len = take max_len (without_controls v)

abbrev pub or_text : Text → Text → Text
or_text [] next = next
or_text (c ∷ cs) next = c ∷ cs

abbrev pub or_none : Text → Option Text
or_none [] = none
or_none (c ∷ cs) = some (c ∷ cs)

pub record RealmFields : Type 0 where
  pub id : Text
  pub name : Text
  pub kind : Text
  pub seed : ℕ
  pub spawn : List ℤ
  pub owner : Text
  pub desc : Option Text
  pub creator : Option Text
  pub royalty_bps : Option ℕ

-- "world", "arena" and "experience"
abbrev pub is_kind : Text → Bool
is_kind t =
    list_eq t (119 ∷ 111 ∷ 114 ∷ 108 ∷ 100 ∷ [])
    || (list_eq t (97 ∷ 114 ∷ 101 ∷ 110 ∷ 97 ∷ [])
        || list_eq t (101 ∷ 120 ∷ 112 ∷ 101 ∷ 114 ∷ 105 ∷ 101 ∷ 110 ∷ 99 ∷ 101 ∷ []))

-- A number of 0 to `most`.
abbrev pub bounded : ℕ → Meta → Option ℕ
bounded most (int (pos n)) = if leb n most then some n else none
bounded most _ = none

-- Three integers.
abbrev pub triple : Meta → Option (List ℤ)
triple (list (item (int a) (item (int b) (item (int c) no_items)))) = some (a ∷ b ∷ c ∷ [])
triple _ = none

-- The keys of the payload.
abbrev key_app : Text
key_app = 97 ∷ 112 ∷ 112 ∷ []

abbrev key_schema : Text
key_schema = 115 ∷ 99 ∷ 104 ∷ 101 ∷ 109 ∷ 97 ∷ []

abbrev key_namespace : Text
key_namespace = 110 ∷ 97 ∷ 109 ∷ 101 ∷ 115 ∷ 112 ∷ 97 ∷ 99 ∷ 101 ∷ []

abbrev key_data : Text
key_data = 100 ∷ 97 ∷ 116 ∷ 97 ∷ []

abbrev key_realm : Text
key_realm = 114 ∷ 101 ∷ 97 ∷ 108 ∷ 109 ∷ []

abbrev key_base : Text
key_base = 98 ∷ 97 ∷ 115 ∷ 101 ∷ []

abbrev key_id : Text
key_id = 105 ∷ 100 ∷ []

abbrev key_kind : Text
key_kind = 107 ∷ 105 ∷ 110 ∷ 100 ∷ []

abbrev key_seed : Text
key_seed = 115 ∷ 101 ∷ 101 ∷ 100 ∷ []

abbrev key_spawn : Text
key_spawn = 115 ∷ 112 ∷ 97 ∷ 119 ∷ 110 ∷ []

abbrev key_owner : Text
key_owner = 111 ∷ 119 ∷ 110 ∷ 101 ∷ 114 ∷ []

abbrev key_name : Text
key_name = 110 ∷ 97 ∷ 109 ∷ 101 ∷ []

abbrev key_desc : Text
key_desc = 100 ∷ 101 ∷ 115 ∷ 99 ∷ []

abbrev key_creator : Text
key_creator = 99 ∷ 114 ∷ 101 ∷ 97 ∷ 116 ∷ 111 ∷ 114 ∷ []

abbrev key_royalty_bps : Text
key_royalty_bps = 114 ∷ 111 ∷ 121 ∷ 97 ∷ 108 ∷ 116 ∷ 121 ∷ 95 ∷ 98 ∷ 112 ∷ 115 ∷ []

abbrev realm_schema : Text
realm_schema = 114 ∷ 101 ∷ 97 ∷ 108 ∷ 109 ∷ 95 ∷ 118 ∷ 49 ∷ []

abbrev realm_namespace : Text
realm_namespace = 114 ∷ 120 ∷ 100 ∷ 46 ∷ 103 ∷ 97 ∷ 109 ∷ 101 ∷ []

-- The namespace, if there is one, is the game's.
unfoldable pub is_namespace : Meta → Bool
is_namespace nothing = true
is_namespace ns = is_text realm_namespace ns

-- A creator that is a text and not empty.
abbrev pub creator_of : Option Text → Option Text
creator_of (some (c ∷ cs)) = some (c ∷ cs)
creator_of _ = none

-- The fields whose tests have passed, with the optional ones.
abbrev pub realm_fields : Meta → Meta → Meta → Text → Text → ℕ → List ℤ → Text → RealmFields
realm_fields metadata base realm id kind seed spawn owner = record {
  id = id;
  name =
      or_text (clean_str (text_of (field key_name realm)) 64)
        (or_text (clean_str (text_of (field key_name metadata)) 64) id);
  kind = kind;
  seed = seed;
  spawn = spawn;
  owner = owner;
  desc = or_none (clean_str (text_of (field key_desc realm)) 280);
  creator = creator_of (text_of (field key_creator base));
  royalty_bps = bounded 5000 (field key_royalty_bps base);
}

-- The tests on the realm's fields, in order.
unfoldable pub checked_realm :
    Meta
    → Meta
    → Meta
    → Option Text
    → Option Text
    → Option ℕ
    → Option (List ℤ)
    → Option Text
    → Option RealmFields
checked_realm metadata base realm (some id) (some kind) (some seed) (some spawn)
      (some (c ∷ owner)) =
    if is_valid_realm_id id && is_kind kind
    then some (realm_fields metadata base realm id kind seed spawn (c ∷ owner))
    else none
checked_realm metadata base realm _ _ _ _ _ = none

unfoldable pub extract_realm_fields : Meta → Option RealmFields
extract_realm_fields metadata =
    let app = field key_app metadata in
    let payload = field key_data app in
    let realm = field key_realm payload in
    let base = field key_base payload in
    if is_text realm_schema (field key_schema app) && is_namespace (field key_namespace app)
    then checked_realm metadata base realm (text_of (field key_id realm))
        (text_of (field key_kind realm)) (bounded 4294967295 (field key_seed realm))
        (triple (field key_spawn realm)) (text_of (field key_owner realm))
    else none
