-- ===== src/Reader/Etl/Load.antt =====
-- `loadFiles` and `listLogfile` of reader/etl_reader.go: the files that are left from before.
pub mod Full
use windns_logtail.Base.{
  Text, lit, contains, ℕ, ltb, Bool, true, false, not, Option, none, some, List, [], ◌∷◌, ◌++◌,
  keep, map, length, if◌then◌else◌,
}

-- What a call of `Readdir` says of a file.
pub record DirEntry : Type 0 where
  pub name : Text
  pub is_dir : Bool

-- The folder is not there, cannot be opened, cannot be read, or has entries.
pub data Folder : Type 0 where
  missing no_open no_readdir : Folder
  entries : List DirEntry → Folder

-- `listLogfile`; `none` is its error. `join_path` is `filepath.Join` with the folder.
unfoldable pub list_logfile : (Text → Text) → Folder → Option (List Text)
list_logfile join_path missing = some []
list_logfile join_path no_open = none
list_logfile join_path no_readdir = none
list_logfile join_path (entries es) =
    some (map (λ (e : DirEntry). join_path e.name) (keep (λ (e : DirEntry). not e.is_dir) es))

-- The channels and the list that the goroutines of `Init` work at, which are not started yet. An
-- element of the list is known by its value.
pub record Queues : Type 0 where
  pub etl_logfiles : List Text
  pub sort_list : List Text
  pub xml_logfiles : List Text

abbrev pub no_files : Queues
no_files = record { etl_logfiles = []; sort_list = []; xml_logfiles = [] }

-- The capacity of either channel.
abbrev pub capacity : ℕ
capacity = 20

unfoldable pub is_etl : Text → Bool
unfolding contains
is_etl file = contains file (lit ".etl")

unfoldable pub is_xml : Text → Bool
unfolding contains
is_xml file = contains file (lit ".xml")

-- The sends of the loop for one file; `none` means that the channel is full, and that the send
-- does not come to an end.
unfoldable pub load_etl : Text → Queues → Option Queues
unfolding is_etl
load_etl file q =
    if is_etl file
    then if ltb (length q.etl_logfiles) capacity
      then some (record q { etl_logfiles = q.etl_logfiles ++ file ∷ [] })
      else none
    else some q

-- `addSortFile` comes before the send.
unfoldable pub load_xml : Text → Queues → Option Queues
unfolding is_xml
load_xml file q =
    if is_xml file
    then if ltb (length q.xml_logfiles) capacity
      then some (record q {
        sort_list = q.sort_list ++ file ∷ [];
        xml_logfiles = q.xml_logfiles ++ file ∷ [];
      })
      else none
    else some q

infixl 5 ◌>>=◌
abbrev pub ◌>>=◌ : Option Queues → (Queues → Option Queues) → Option Queues
none >>= f = none
some q >>= f = f q

-- The loop of `loadFiles`.
unfoldable pub load_all : List Text → Queues → Option Queues
unfolding load_etl load_xml
load_all [] q = some q
load_all (file ∷ files) q = load_etl file q >>= λ r. load_xml file r >>= λ s. load_all files s

-- `loadFiles`: an error, a send that does not end, or the files in the channels. `sorted` is what
-- `sort.Slice` makes of them with a comparison that looks at the indices only.
pub data Load : Type 0 where
  failed blocked : Load
  loaded : Queues → Load

unfoldable pub load_files : (Text → Text) → (List Text → List Text) → Folder → Load
unfolding list_logfile load_all
load_files join_path sorted folder = elim (list_logfile join_path folder) [
  | none ↦ failed
  | some files ↦ elim (load_all (sorted files) no_files) [ none ↦ blocked | some q ↦ loaded q ]
]
