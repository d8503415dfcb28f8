-- ===== src/Sql/Plan.antt =====
-- internal/plan/plan.go: the plan tree, the range entries that its rows are laid out over, and its
-- estimates. A float64 is a parameter: no operation on it is in this file.
use build_postgres.Prelude.{ℕ, Option, List, [], ◌∷◌, ◌++◌}
use build_postgres.Catalog.{IndexInfo}
use build_postgres.Sql.Query.{RangeEntry, Expr, Target, SortKey, Assignment}

-- ModifyOp
pub data ModifyOp : Type 0 where
  insert update delete : ModifyOp

pub record Estimate (Float : Type 0) : Type 0 where
  pub startup_cost : Float
  pub total_cost : Float
  pub rows : Float
  pub width : ℕ

-- The struct IndexScan.
pub record IndexScan (Float : Type 0) : Type 0 where
  pub rel : RangeEntry
  pub index : IndexInfo
  pub quals : List Expr
  pub est : Estimate Float

module _ {Float : Type 0} where
  -- IndexScan.Range and IndexScan.Estimate
  unfoldable pub index_scan_range : IndexScan Float → List RangeEntry
  index_scan_range n = n.rel ∷ []

  unfoldable pub index_scan_estimate : IndexScan Float → Estimate Float
  index_scan_estimate n = n.est

-- A constructor for each struct, whose arguments are its fields in order. A Qual that may be nil is an Option.
mutual
  -- Node, with the structs of chapters 11 to 14.
  pub data Node (Float : Type 0) : Type 0 where
    result : Estimate Float → Node Float
    values : List (List Expr) → Estimate Float → Node Float
    seq_scan : RangeEntry → Estimate Float → Node Float
    index_scan : IndexScan Float → Node Float
    filter : Node Float → Expr → Estimate Float → Node Float
    project : Node Float → List Target → Estimate Float → Node Float
    sort : Node Float → List SortKey → Estimate Float → Node Float
    limit : Node Float → Expr → Estimate Float → Node Float
    modify_table :
        ModifyOp → RangeEntry → Node Float → List Assignment → Estimate Float → Node Float
    joining : Join Float → Node Float

  -- The structs of chapter 15.
  pub data Join (Float : Type 0) : Type 0 where
    nest_loop : Node Float → Node Float → Option Expr → Estimate Float → Join Float
    hash_join : Node Float → Node Float → List Expr → Option Expr → Estimate Float → Join Float
    hash : Node Float → Estimate Float → Join Float
    materialize : Node Float → Estimate Float → Join Float

-- joinRange, given the ranges of the two nodes.
unfoldable pub join_range : List RangeEntry → List RangeEntry → List RangeEntry
join_range outer inner = ([] ++ outer) ++ inner

module _ {Float : Type 0} where
  -- The methods Range; the nil slice is the empty list.
  unfoldable mutual
    unfolding join_range index_scan_range

    pub range : Node Float → List RangeEntry
    range (result est) = []
    range (values rows est) = []
    range (seq_scan rel est) = rel ∷ []
    range (index_scan n) = index_scan_range n
    range (filter input qual est) = range input
    range (project input targets est) = []
    range (sort input keys est) = range input
    range (limit input count est) = range input
    range (modify_table op rel input assignments est) = []
    range (joining j) = range_of_join j

    -- The methods Range of the structs of chapter 15.
    pub range_of_join : Join Float → List RangeEntry
    range_of_join (nest_loop outer inner qual est) = join_range (range outer) (range inner)
    range_of_join (hash_join outer inner quals qual est) = join_range (range outer) (range inner)
    range_of_join (hash input est) = range input
    range_of_join (materialize input est) = range input

  -- The methods Estimate of the structs of chapter 15.
  unfoldable pub estimate_of_join : Join Float → Estimate Float
  estimate_of_join (nest_loop outer inner qual est) = est
  estimate_of_join (hash_join outer inner quals qual est) = est
  estimate_of_join (hash input est) = est
  estimate_of_join (materialize input est) = est

  -- The methods Estimate.
  unfoldable pub estimate : Node Float → Estimate Float
  unfolding estimate_of_join index_scan_estimate
  estimate (result est) = est
  estimate (values rows est) = est
  estimate (seq_scan rel est) = est
  estimate (index_scan n) = index_scan_estimate n
  estimate (filter input qual est) = est
  estimate (project input targets est) = est
  estimate (sort input keys est) = est
  estimate (limit input count est) = est
  estimate (modify_table op rel input assignments est) = est
  estimate (joining j) = estimate_of_join j
