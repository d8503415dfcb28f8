-- ===== src/Page.antt =====
-- internal/page/page.go: the constants of the slotted page, line pointers, and the methods that read a
-- page. Their bodies are exercises of the repository: `PageReader` has them as fields, and `PageLaws`
-- what their comments promise.
use build_postgres.Prelude.{
  ℕ, ◌+◌, ◌-◌, ◌/◌, ◌%◌, ◌≤◌, ◌≡◌, ◌≢◌, Bool, Option, some, length, take, drop,
}
use build_postgres.Prelude.Text.{Bytes}
use build_postgres.Prelude.Result.{Result, ok, err}

abbrev pub page_size : ℕ
page_size = 8192

abbrev pub header_size : ℕ
header_size = 24

abbrev pub line_pointer_size : ℕ
line_pointer_size = 4

abbrev pub layout_version : ℕ
layout_version = 1

-- x &^ 7 is x - x % 8
abbrev pub max_item_size : ℕ
max_item_size =
    (page_size - header_size - line_pointer_size)
    - (page_size - header_size - line_pointer_size) % 8

pub data PageError : Type 0 where
  no_space item_too_large invalid_offset item_unused_error : PageError

-- OffsetNumber is a uint16.
abbrev pub invalid_offset_number : ℕ
invalid_offset_number = 0

-- ItemFlags is a uint8 with named values.
abbrev pub item_unused : ℕ
item_unused = 0

abbrev pub item_normal : ℕ
item_normal = 1

abbrev pub item_redirect : ℕ
item_redirect = 2

abbrev pub item_dead : ℕ
item_dead = 3

-- ItemID
pub record ItemId : Type 0 where
  pub off : ℕ
  pub len : ℕ
  pub flags : ℕ

-- The methods of Page that read it; none is a panic. A page is its bytes.
pub record PageReader : Type 0 where
  pub is_new : Bytes → Bool
  pub lsn : Bytes → ℕ
  pub lower : Bytes → ℕ
  pub upper : Bytes → ℕ
  pub special : Bytes → ℕ
  pub num_items : Bytes → ℕ
  pub item_id : Bytes → ℕ → Option ItemId
  pub free_space : Bytes → ℕ
  pub get_item : Bytes → ℕ → Option (Result PageError Bytes)

-- The item that a line pointer shows: a slice of the page.
abbrev pub slice : Bytes → ItemId → Bytes
slice p id = take id.len (drop id.off p)

abbrev pub InRange : PageReader → Bytes → ℕ → Type 0
InRange r p n = (1 ≤ n) × (n ≤ r.num_items p)

-- NumItems is the size of the line pointer array; ItemID and GetItem serve the numbers 1..NumItems();
-- GetItem refuses a line pointer that is not normal, and slices the page at one that is.
pub record PageLaws (r : PageReader) : Type 0 where
  pub num_items_lem : (p : Bytes) → r.num_items p ≡ (r.lower p - header_size) / line_pointer_size
  pub item_id_lem : (p : Bytes) (n : ℕ) → InRange r p n → (id : ItemId) × (r.item_id p n ≡ some id)
  pub get_item_unused :
      (p : Bytes) (n : ℕ) (id : ItemId)
      → r.item_id p n ≡ some id
      → id.flags ≢ item_normal
      → r.get_item p n ≡ some (err item_unused_error)
  pub get_item_normal :
      (p : Bytes) (n : ℕ) (id : ItemId)
      → r.item_id p n ≡ some id
      → id.flags ≡ item_normal
      → id.off + id.len ≤ length p
      → r.get_item p n ≡ some (ok (slice p id))

-- DeleteItem, Compact and InsertItem return the page as they leave it.
pub record PageEditor : Type 0 where
  pub delete_item : Bytes → ℕ → Bytes × Option PageError
  pub compact : Bytes → Bytes
  pub insert_item : Bytes → ℕ → Bytes → Bytes × Option PageError
