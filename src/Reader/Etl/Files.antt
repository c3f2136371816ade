-- ===== src/Reader/Etl/Files.antt =====
-- reader/etl_reader.go: the way of a file from `transferETL` over `unmarshalETL` to the channel
-- `events`, with the list that keeps the files in order. Each step is one of the goroutines at
-- work, while `stop` is not set; a file is known by a number.
-- A load that fails sends an empty `Events`, in one step with leaving the list. The front that
-- `wait` reads for a line of its log is left out.
pub mod Kept
pub mod Sequence
use windns_logtail.Base.{
  ℕ, zero, suc, ◌==◌, ltb, Bool, true, false, Option, none, some, List, [], ◌∷◌, ◌++◌,
  if◌then◌else◌, ◌≡◌,
}

-- The channel `etlLogfiles`, the list `sortList`, the files that the transfer pool works at, the
-- channel `xmlLogfiles`, the files that the load pool works at, those that have left `wait` and
-- are not sent yet, and the channel `events`. `left` logs the order in which files leave `wait`,
-- and `failed` the files whose load failed.
pub record Files : Type 0 where
  pub etl_logfiles : List ℕ
  pub sort_list : List ℕ
  pub transferring : List ℕ
  pub xml_logfiles : List ℕ
  pub loading : List ℕ
  pub leaving : List ℕ
  pub events : List ℕ
  pub left : List ℕ
  pub failed : List ℕ

unfoldable pub count : ℕ → List ℕ → ℕ
count i [] = 0
count i (j ∷ js) = if i == j then suc (count i js) else count i js

-- `list.Remove`, and the end of a task.
unfoldable pub remove_one : ℕ → List ℕ → List ℕ
remove_one i [] = []
remove_one i (j ∷ js) = let rest = remove_one i js in if i == j then js else j ∷ rest

abbrev pub holds : ℕ → List ℕ → Bool
holds i js = ltb 0 (count i js)

-- What comes of a step: it happens, it is not possible now, it panics, or it changes the list
-- without the lock, beside other goroutines, so that nothing can be said of what follows.
pub data Attempt : Type 0 where
  done : Files → Attempt
  waits panics races : Attempt

-- The steps: a file is taken from `etlLogfiles` or `xmlLogfiles`, a transfer ends, with an error
-- or without, a load ends with an error, finds itself first in `wait`, or sends after `wait`.
pub data Action : Type 0 where
  take_etl take_xml : Action
  transfer_ok transfer_error load_error leave_wait send : ℕ → Action

-- `addSortFile`, before the task is submitted.
unfoldable pub add_sort_file : List ℕ → Files → Attempt
add_sort_file [] s = waits
add_sort_file (i ∷ rest) s = done (record s {
  etl_logfiles = rest;
  sort_list = s.sort_list ++ i ∷ [];
  transferring = s.transferring ++ i ∷ [];
})

unfoldable pub receive_xml : List ℕ → Files → Attempt
receive_xml [] s = waits
receive_xml (i ∷ rest) s = done (record s { xml_logfiles = rest; loading = s.loading ++ i ∷ [] })

-- `isFirstFile`, which reads the value of the list's front, and the end of `wait`.
unfoldable pub leave_if_first : ℕ → List ℕ → Files → Attempt
leave_if_first i [] s = panics
leave_if_first i (j ∷ rest) s =
    if i == j
    then done (record s {
      sort_list = rest;
      loading = remove_one i s.loading;
      leaving = s.leaving ++ i ∷ [];
      left = s.left ++ i ∷ [];
    })
    else waits

unfoldable pub step : Action → Files → Attempt
unfolding add_sort_file receive_xml leave_if_first count remove_one
step take_etl s = add_sort_file s.etl_logfiles s
step take_xml s = receive_xml s.xml_logfiles s
step (transfer_ok i) s =
    if holds i s.transferring
    then done (record s {
      transferring = remove_one i s.transferring;
      xml_logfiles = s.xml_logfiles ++ i ∷ [];
    })
    else waits
step (transfer_error i) s = if holds i s.transferring then races else waits
step (load_error i) s =
    if holds i s.loading
    then done (record s {
      loading = remove_one i s.loading;
      sort_list = remove_one i s.sort_list;
      events = s.events ++ i ∷ [];
      failed = s.failed ++ i ∷ [];
    })
    else waits
step (leave_wait i) s = if holds i s.loading then leave_if_first i s.sort_list s else waits
step (send i) s =
    if holds i s.leaving
    then done (record s { leaving = remove_one i s.leaving; events = s.events ++ i ∷ [] })
    else waits

-- A run of the goroutines: steps that happen, one after the other.
pub data Steps : Files → Files → Type 0 where
  start : {s : Files} → Steps s s
  then_step : {s t u : Files} → Steps s t → (a : Action) → step a t ≡ done u → Steps s u

-- After `loadFiles`: the traces that it found wait to be transferred, and the XML files are in the
-- list and wait to be loaded.
abbrev pub loaded_files : List ℕ → List ℕ → Files
loaded_files etl xml = record {
  etl_logfiles = etl;
  sort_list = xml;
  transferring = [];
  xml_logfiles = xml;
  loading = [];
  leaving = [];
  events = [];
  left = [];
  failed = [];
}
