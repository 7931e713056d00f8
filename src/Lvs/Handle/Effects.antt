-- ===== src/Lvs/Handle/Effects.antt =====
-- The successful branches of the in-memory handle's operations, as equations.
use ezlb.Shared.{◌≡◌, some, none, []}
use ezlb.Shared.GoMap.{GoMap, lookup, insert, delete}
use ezlb.Std.{Std}
use ezlb.Lvs.Types.{
  Service, Destination, ServiceKey, DestinationKey, service_key_eq, destination_key_eq,
}
use ezlb.Lvs.Handle.Fake.{
  FakeHandle, make_fake_service_key, make_fake_destination_key, new_service, update_service,
  del_service, new_destination, update_destination, del_destination, clone_service,
  clone_destination,
}

module _ (std : Std) where
  open std use {IP}

  abbrev pub Destinations : Type 0
  Destinations = GoMap DestinationKey (Destination IP)

  -- `h` with the destinations of one service replaced.
  abbrev pub put : ServiceKey → Destinations → FakeHandle IP → FakeHandle IP
  put k m h = record h { destinations = insert k m h.destinations }

  module _ (svc : Service IP) (h : FakeHandle IP) where
    abbrev key : ServiceKey
    key = make_fake_service_key std svc

    pub new_service_fresh :
        lookup key h.services ≡ none
        → new_service std svc h ≡ (
          record {
            services = insert key svc h.services;
            destinations = insert key [] h.destinations;
          },
          none,
        )
    unfolding new_service clone_service
    new_service_fresh fresh = rw (fresh, new_service)

    pub update_service_found :
        {old : Service IP}
        → lookup key h.services ≡ some old
        → update_service std svc h ≡ (record h { services = insert key svc h.services }, none)
    unfolding update_service clone_service
    update_service_found found = rw (found, update_service)

    pub del_service_found :
        {old : Service IP}
        → lookup key h.services ≡ some old
        → del_service std svc h ≡ (
          record { services = delete key h.services; destinations = delete key h.destinations },
          none,
        )
    unfolding del_service
    del_service_found found = rw (found, del_service)

    module _ (dst : Destination IP) (m : Destinations)
        (there : lookup key h.destinations ≡ some m) where
      abbrev dst_key : DestinationKey
      dst_key = make_fake_destination_key std dst

      pub new_destination_fresh :
          lookup dst_key m ≡ none
          → new_destination std svc dst h ≡ (put key (insert dst_key dst m) h, none)
      unfolding new_destination clone_destination
      new_destination_fresh fresh = rw (there, new_destination) (rw (fresh, new_destination))

      pub update_destination_found :
          {old : Destination IP}
          → lookup dst_key m ≡ some old
          → update_destination std svc dst h ≡ (put key (insert dst_key dst m) h, none)
      unfolding update_destination clone_destination
      update_destination_found found =
          rw (there, update_destination) (rw (found, update_destination))

      pub del_destination_found :
          {old : Destination IP}
          → lookup dst_key m ≡ some old
          → del_destination std svc dst h ≡ (put key (delete dst_key m) h, none)
      unfolding del_destination
      del_destination_found found = rw (there, del_destination) (rw (found, del_destination))
