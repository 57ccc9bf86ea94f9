-- ===== src/Builder/Tests.antt =====
-- The builder's store at a build with one subscriber.
use compute_backend.Maps.{lookup, insert}
use compute_backend.Builder.Types.{queued, Build}
use compute_backend.Builder.Channels.Defs.{offer_all, close, close_all, fill}
use compute_backend.Builder.MemStore.Defs.{
  BuildRecord, MemStore, new_mem_store, done, panics, blocks, create, subscribers_of, send_all,
  broadcast, append_log, subscribe, close_subscribers,
}
use compute_backend.Builder.MemStore.Invariant.{IsWellFormed}
use compute_backend.Builder.MemStore.Subscribing.{replaying}
use compute_backend.Prelude.{
  ℕ, ◌+◌, ◌<◌, ◌≡◌, refl, ◌↔◌, true, false, Option, none, some, [], ◌∷◌, arith, if◌then◌else◌, Time,
  length, get_elem?, take,
}
use compute_backend.Strings.{Text, codes, text_eq}
use compute_backend.Builder.Types.{CreateRequest}
use compute_backend.Builder.Service.{
  accepted, Database, World, Command, waited, handle_create_build, is_incomplete,
}
use compute_backend.Builder.Service.Steps.{Tracks}
use compute_backend.Builder.Service.Lifecycle.{build_for, handle_create_build_lem}
use compute_backend.Builder.MemStore.Replay.{
  creating, appending, subscribing, closing, call, run, IsSafe, run-IsSafe, subscribe_blocks,
  append_logs, subscribe_replays, broadcast_after_close,
}

abbrev pub build : Build
build = record {
  id = codes "b1";
  template = codes "t";
  runner_name = codes "flux";
  model_id = codes "m";
  version = codes "1";
  repository = codes "r";
  runner_image = codes "i";
  weights_uri = [];
  status = queued;
  created_at = 5;
  updated_at = 5;
  finished_at = 0;
  error = [];
}

abbrev pub line : Text
line = codes "cloning repository"

abbrev pub logged : BuildRecord
logged = record { build = build; subscribers = []; logs = line ∷ [] }

abbrev pub one_line : MemStore
one_line = record { items = (codes "b1", logged) ∷ []; heap = [] }

abbrev watched : MemStore
watched = record {
  items = (codes "b1", record logged { subscribers = 0 ∷ [] }) ∷ [];
  heap = record { buffer = line ∷ []; closed = false } ∷ [];
}

abbrev shut_down : MemStore
shut_down = record {
  items = (codes "b1", logged) ∷ [];
  heap = record { buffer = line ∷ []; closed = true } ∷ [];
}

pub one_line-IsWellFormed : IsWellFormed one_line
unfolding run call create append_log broadcast send_all subscribers_of offer_all insert lookup
    text_eq
one_line-IsWellFormed = run-IsSafe (creating build ∷ appending (codes "b1") line ∷ [])

watched-IsWellFormed : IsWellFormed watched
unfolding run call create append_log broadcast send_all subscribers_of subscribe fill offer_all
    insert lookup text_eq
watched-IsWellFormed =
    run-IsSafe (creating build ∷ appending (codes "b1") line ∷ subscribing (codes "b1") ∷ [])

run-IsSafe_example : IsSafe (
    run
      (creating build
        ∷ subscribing (codes "b1")
        ∷ appending (codes "b1") line
        ∷ closing (codes "b1")
        ∷ appending (codes "b1") line
        ∷ [])
      new_mem_store)
run-IsSafe_example = run-IsSafe (
    creating build
    ∷ subscribing (codes "b1")
    ∷ appending (codes "b1") line
    ∷ closing (codes "b1")
    ∷ appending (codes "b1") line
    ∷ [])

subscribe_blocks_example :
    (subscribe (codes "b1") one_line ≡ some blocks) ↔ (32 < length (line ∷ []))
unfolding lookup text_eq
subscribe_blocks_example = subscribe_blocks (codes "b1") one_line logged refl

subscribe_replays_example :
    (u : MemStore) × (append_logs (codes "b1") (codes "done" ∷ []) watched ≡ done u)
    × (get_elem? u.heap 0 ≡ some (replaying (take 32 (line ∷ codes "done" ∷ []))))
    × ((now : BuildRecord) × (lookup (codes "b1") u.items ≡ some now)
        × (now.logs ≡ line ∷ codes "done" ∷ []))
unfolding lookup text_eq subscribe fill insert
subscribe_replays_example =
    subscribe_replays (codes "b1") one_line watched 0 logged (codes "done" ∷ [])
      one_line-IsWellFormed refl refl

broadcast_after_close_example :
    send_all (subscribers_of (codes "b1") watched) line shut_down ≡ panics
unfolding lookup text_eq close_subscribers close_all close insert
broadcast_after_close_example =
    broadcast_after_close (codes "b1") line watched shut_down
      (record logged { subscribers = 0 ∷ [] }) watched-IsWellFormed refl (ground arith) refl

abbrev request : CreateRequest
request = record {
  template = codes "t";
  runner_name = codes "flux";
  model_id = codes "m";
  version = codes "1";
  repository = codes "r";
  runner_image = codes "i";
  weights_uri = [];
  env = [];
}

abbrev no_database : Option (Database Unit)
no_database = none

abbrev clock : ℕ → Time
clock k = 5 + k

abbrev getenv : Text → Text
getenv key =
    if text_eq key (codes "BUILDER_BUILD_COMMAND") then codes "make" else codes "http://registry/"

abbrev world : World Unit
world = record { mem = one_line; db = tt; ticks = 0; calls = [] }

abbrev failing : Command
failing = waited (codes "a" ∷ []) (codes "b" ∷ []) (some (codes "exit status 1"))

handle_create_build_lem_example :
    ((handle_create_build no_database clock getenv (λ t. t) (codes "b2") none world).1 ≡ world)
    × (is_incomplete no_database clock getenv (λ t. t) request ≡ true
        → (handle_create_build no_database clock getenv
            (λ t. t)
            (codes "b2")
            (some request)
            world).1
          ≡ world)
    × (is_incomplete no_database clock getenv (λ t. t) request ≡ false
        → ((handle_create_build no_database clock getenv
              (λ t. t)
              (codes "b2")
              (some request)
              world).0
            ≡ accepted (build_for (codes "b2") 5 request))
          × (lookup
                (codes "b2")
                (handle_create_build no_database clock getenv
                  (λ t. t)
                  (codes "b2")
                  (some request)
                  world).1.mem.items
              ≡ some (record {
                build = build_for (codes "b2") 5 request;
                subscribers = [];
                logs = [];
              }))
          × Tracks
              (codes "b2")
              queued
              []
              []
              []
              (handle_create_build no_database clock getenv
                (λ t. t)
                (codes "b2")
                (some request)
                world).1)
handle_create_build_lem_example =
    handle_create_build_lem no_database clock getenv (λ t. t) (codes "b2") request world
      one_line-IsWellFormed
