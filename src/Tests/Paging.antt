-- ===== src/Tests/Paging.antt =====
-- The devices of an organization, read page by page from a table of lists.
use mikrotikbandwidthmonitor.Prelude.{
  suc, ◌≡◌, ◌↔◌, refl, true, none, some, List, [], ◌∷◌, length, Member, IsAscending, arith,
}
use mikrotikbandwidthmonitor.Api.Schema.{Device, Store}
use mikrotikbandwidthmonitor.Api.Devices.{ListInput, list, matches}
use mikrotikbandwidthmonitor.Api.Devices.Tenancy.{id_of, member}
use mikrotikbandwidthmonitor.Api.Devices.Paging.{walk, walk-list, GivesIdsOnce, at}
use mikrotikbandwidthmonitor.Tests.Tables.{list_engine, keep_if, put, sort, keep_if-IsDistinct}
use mikrotikbandwidthmonitor.Tests.Devices.{device, with_devices, everything, eve}

abbrev table : List Device
table = device 5 7 ∷ device 2 7 ∷ device 3 8 ∷ device 4 7 ∷ []

abbrev pub store : Store list_engine
store = with_devices table

abbrev by_two : ListInput
by_two = record everything { limit = 2 }

walk_test :
    walk list_engine 2 (member eve 7) store by_two none
    ≡ some (device 2 7 ∷ device 4 7 ∷ device 5 7 ∷ [])
unfolding walk list matches keep_if put sort
walk_test = refl

once : GivesIdsOnce list_engine store.devices
once p = keep_if-IsDistinct id_of p table (
  ((λ e. omega (arith, e)), ((λ e. omega (arith, e)), ((λ e. omega (arith, e)), tt))),
  (
    ((λ e. omega (arith, e)), ((λ e. omega (arith, e)), tt)),
    (((λ e. omega (arith, e)), tt), (tt, tt)),
  ),
)

walk-list_example :
    (all : List Device) × (walk list_engine (suc (length all)) (member eve 7) store by_two none
      ≡ some all)
    × IsAscending id_of all
    × ((d : Device)
        → Member all d
          ↔ (list_engine.Has store.devices d × (matches list_engine 7 (at by_two none) d ≡ true)))
walk-list_example = walk-list list_engine 7 by_two eve store once (omega arith)
