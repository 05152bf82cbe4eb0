-- ===== src/Swarm/State.antt =====
-- The fields of `SwarmData` and `SwarmManager`, and what they take from other parts of the program.
use libswift.Base.{ℕ, zero, ◌/◌, ◌%◌, ◌^◌, Bool, false, Option, List, [], ◌==◌, if◌then◌else◌}

-- The bytes of a `std::string`.
abbrev pub Text : Type 0
Text = List ℕ

-- A root hash is the number of which its 20 bytes are the digits, the first byte the highest one, so
-- that `memcmp` compares numbers. `Sha1Hash::ZERO` is 0.
abbrev pub RootHash : Type 0
RootHash = ℕ

-- `data_direction_t`
pub data Direction : Type 0 where
  download upload : Direction

-- What the manager uses of `FileTransfer`, its hash tree and its storage. A progress callback is a
-- number, registered with the layer of its reports.
pub record Transfers : Type 1 where
  pub Transfer : Type 0
  pub Speed : Type 0
  pub is_positive : Speed → Bool
  pub is_same : Speed → Speed → Bool
  pub is_operational : Transfer → Bool
  pub is_zero_state : Transfer → Bool
  pub swarm_id : Transfer → RootHash
  pub get_max_speed : Direction → Transfer → Speed
  pub set_max_speed : Direction → Speed → Transfer → Transfer
  pub callbacks : Transfer → List (ℕ × ℕ)
  pub add_callback : ℕ × ℕ → Transfer → Transfer
  pub remove_callback : ℕ → Transfer → Transfer
  pub size : Transfer → ℕ
  pub is_complete : Transfer → Bool
  pub complete : Transfer → ℕ
  pub seq_complete : ℕ → Transfer → ℕ
  pub os_path_name : Transfer → Text
  pub is_ready : Transfer → Bool
  pub storage_files : Transfer → List Text
  pub set_td : Option ℕ → Transfer → Transfer
  pub set_tracker : Text → Transfer → Transfer
  pub connect_to_tracker : Transfer → Transfer

-- `SwarmData`. An `id` of `none` is -1; `stateToBeRemoved_` and `contentToBeRemoved_` are never read.
pub record SwarmData (t : Transfers) : Type 0 where
  pub id : Option ℕ
  pub root_hash : RootHash
  pub active : Bool
  pub latest_use : ℕ
  pub ft : Option t.Transfer
  pub filename : Text
  pub trackerurl : Text
  pub force_check_disk_vs_hash : Bool
  pub cont_int_prot_method : ℕ
  pub chunk_size : ℕ
  pub zerostate : Bool
  pub cached_max_speeds : Direction → t.Speed
  pub cached_storage_ready : Bool
  pub cached_storage_filenames : List Text
  pub cached_size : ℕ
  pub cached_is_complete : Bool
  pub cached_complete : ℕ
  pub cached_os_path_name : Text
  pub cached_callbacks : List (ℕ × ℕ)
  pub cached_seq_complete : ℕ
  pub cached : Bool
  pub metadir : Text

-- What the rest of the program and the system answer during one call: the clock, the sizes of files
-- (`none` is -1), the root hash and the bytes in the checkpoint of a file, the transfer that the
-- constructor of `FileTransfer` makes, whether the hash tree of a transfer can be saved, and what
-- lies in the memory of a new `SwarmData`.
pub record Os (t : Transfers) : Type 0 where
  pub now : ℕ
  pub file_size : Text → Option ℕ
  pub checkpoint_tree : Text → RootHash × ℕ
  pub open_transfer : Option ℕ → Text → RootHash → Bool → ℕ → ℕ → Bool → Text → t.Transfer
  pub can_save : t.Transfer → Bool
  pub garbage : SwarmData t

pub record UnusedIndex : Type 0 where
  pub index : ℕ
  pub since : ℕ

-- `SwarmManager`. A `SwarmData*` is a number: `swarm` is what lies at an address, `alive` tells
-- the objects that are made and not deleted, and `next` is the address of the next one. `timer` is
-- whether `eventCheckToBeRemoved_` is pending.
pub record Manager (t : Transfers) : Type 0 where
  pub swarm : ℕ → SwarmData t
  pub alive : ℕ → Bool
  pub next : ℕ
  pub known_swarms : ℕ → List ℕ
  pub swarm_list : List (Option ℕ)
  pub unused_indices : List UnusedIndex
  pub timer : Bool
  pub max_active_swarms : ℕ
  pub active_swarm_count : ℕ
  pub active_swarms : List ℕ

-- `rootHash.bits[0]&63`
abbrev pub bucket : RootHash → ℕ
bucket hash = hash / 2 ^ 152 % 64

module _ {t : Transfers} where
  abbrev pub root_at : Manager t → ℕ → RootHash
  root_at m p = (m.swarm p).root_hash

  -- `*p = d`
  abbrev pub put : ℕ → SwarmData t → Manager t → Manager t
  put p d m = record m { swarm = λ q. if q == p then d else m.swarm q }

-- The constructor, on memory that holds `memory`.
unfoldable pub new_manager : {t : Transfers} → (ℕ → SwarmData t) → Manager t
new_manager memory = record {
  swarm = memory;
  alive = λ p. false;
  next = zero;
  known_swarms = λ i. [];
  swarm_list = [];
  unused_indices = [];
  timer = false;
  max_active_swarms = 480;
  active_swarm_count = 0;
  active_swarms = [];
}
