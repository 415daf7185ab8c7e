-- ===== src/Ipc/Discovery/Registration.antt =====
-- src/framework/ipc/discovery/etcd_discovery: the registration of a process, on all branches.
use some_server.Base.{
  ℕ, ◌≡◌, inl, inr, refl, sym, ap, ◌∙◌, subst, true, false, not, ◌&&◌, some, arith, nat_eq, ltb,
  if◌then◌else◌, Eq_ℕ, Eq_String, Eq_Bytes, Bool-cases,
}
use some_server.Base.Table.{put}
use some_server.Ipc.Types.{ProcessDescriptor, Result}
use some_server.Ipc.Discovery.{process_key}
use some_server.Ipc.Discovery.Etcd.{
  Backend, Json, EtcdDiscovery, ensure_lease, put_again, put_self, registered, grant, register_self,
}

-- What etcd says of its leases: none has the number 0.
pub record BackendLaws {B : Type 0} (etcd : Backend B) : Type 0 where
  pub grant_lease-ne-zero :
      (b : B) (ttl old : ℕ)
      → (etcd.grant_lease b ttl old).0.ok ≡ true
      → nat_eq (etcd.grant_lease b ttl old).1 0 ≡ false

module _ {B : Type 0} (etcd : Backend B) (json : Json) where
  -- What is promised of a registration that ends in a result: the process is in the view beside
  -- the others under a lease where one is wanted, or the view and the registration are the old ones.
  abbrev pub Registers : EtcdDiscovery B → ProcessDescriptor → Result × EtcdDiscovery B → Type 0
  Registers d self (result, d') =
      (d'.events ≡ d.events)
      × (d'.lease_ttl_seconds ≡ d.lease_ttl_seconds)
      × (d'.self ≡ (if result.ok then some self else d.self))
      × (d'.processes ≡ (
          if result.ok
          then put (process_key self.process.process_id) self d.processes
          else d.processes))

  abbrev Kept : EtcdDiscovery B → EtcdDiscovery B → Type 0
  Kept d d' =
      (d'.events ≡ d.events)
      × (d'.lease_ttl_seconds ≡ d.lease_ttl_seconds)
      × (d'.self ≡ d.self)
      × (d'.processes ≡ d.processes)

  registered_lem :
      (d d' : EtcdDiscovery B) (self : ProcessDescriptor) (r : Result)
      → Kept d d'
      → Registers d self (registered etcd json (r, d') self)
  registered_lem d d' self r k = elim (Bool-cases r.ok) [
    | inl t ↦ rw t (k.0, k.1, refl, ap (put (process_key self.process.process_id) self) k.3)
    | inr t ↦ rw t k
  ]

  grant-Kept : (d : EtcdDiscovery B) → Kept d (grant etcd json d).1
  unfolding grant
  grant-Kept d = (refl, refl, refl, refl)

  put_self-Kept :
      (d : EtcdDiscovery B) (self : ProcessDescriptor) → Kept d (put_self etcd json d self).1
  unfolding put_self
  put_self-Kept d self = (refl, refl, refl, refl)

  Registers-Kept :
      (d e : EtcdDiscovery B) (self : ProcessDescriptor) (o : Result × EtcdDiscovery B)
      → Kept d e
      → Registers e self o
      → Registers d self o
  Registers-Kept d e self o k r = (
    r.0 ∙ k.0,
    r.1 ∙ k.1,
    r.2 ∙ ap (λ x. if o.0.ok then some self else x) k.2,
    r.3 ∙ ap (λ x. if o.0.ok then put (process_key self.process.process_id) self x else x) k.3,
  )

  ensure_lease-Kept : (d : EtcdDiscovery B) → Kept d (ensure_lease etcd json d).1
  unfolding grant
  ensure_lease-Kept d = elim (Bool-cases (ltb 0 d.lease_ttl_seconds && nat_eq d.lease_id 0)) [
    | inl t ↦ rw t (refl, refl, refl, refl)
    | inr t ↦ rw t (refl, refl, refl, refl)
  ]

  put_again_lem :
      (d : EtcdDiscovery B) (self : ProcessDescriptor)
      → Registers d self (put_again etcd json d self)
  unfolding grant put_self
  put_again_lem d self =
      let g = grant etcd json (record d { lease_id = 0 }) in
      elim (Bool-cases g.0.ok) [
        | inl t ↦ rw (t) (
            registered_lem d (put_self etcd json g.1 self).1 self (put_self etcd json g.1 self).0
              (refl, refl, refl, refl))
        | inr t ↦ rw t (refl, refl, refl, refl)
      ]

  register_self_cases :
      (d : EtcdDiscovery B) (self : ProcessDescriptor)
      → Registers d self (register_self etcd json d self)
  unfolding register_self put_self
  register_self_cases d self =
      let l = ensure_lease etcd json d in
      let f = put_self etcd json l.1 self in
      elim (Bool-cases l.0.ok) [
        | inr t ↦ rw (register_self, t, t) (ensure_lease-Kept d)
        | inl t ↦ elim (Bool-cases (not f.0.ok && ltb 0 f.1.lease_ttl_seconds)) [
          | inl again ↦
              rw (register_self, t, again)
                (Registers-Kept d f.1 self (put_again etcd json f.1 self) (ensure_lease-Kept d)
                  (put_again_lem f.1 self))
          | inr enough ↦
              rw (register_self, t, enough) (registered_lem d f.1 self f.0 (ensure_lease-Kept d))
        ]
      ]

  registered_lease :
      (d : EtcdDiscovery B) (self : ProcessDescriptor) (r : Result)
      → (registered etcd json (r, d) self).1.lease_id ≡ d.lease_id
  registered_lease d self r = elim (Bool-cases r.ok) [ inl t ↦ rw t refl | inr t ↦ rw t refl ]

  ensure_lease_holds :
      BackendLaws etcd
      → (d : EtcdDiscovery B) → ltb 0 d.lease_ttl_seconds ≡ true
      → (ensure_lease etcd json d).0.ok ≡ true
      → nat_eq (ensure_lease etcd json d).1.lease_id 0 ≡ false
  unfolding grant
  ensure_lease_holds laws d wanted ok = elim (Bool-cases (nat_eq d.lease_id 0)) [
    | inl t ↦ ground (arith, laws.grant_lease-ne-zero d.backend d.lease_ttl_seconds d.lease_id)
    | inr t ↦ ground arith
  ]

  put_again_holds :
      BackendLaws etcd
      → (d : EtcdDiscovery B) (self : ProcessDescriptor) → (put_again etcd json d self).0.ok ≡ true
      → nat_eq (put_again etcd json d self).1.lease_id 0 ≡ false
  unfolding grant put_self
  put_again_holds laws d self =
      let g = grant etcd json (record d { lease_id = 0 }) in
      let p = put_self etcd json g.1 self in
      elim (Bool-cases g.0.ok) [
        | inl t ↦ rw t λ ok.
            subst (λ x. nat_eq x 0 ≡ false) (sym (registered_lease p.1 self p.0))
              (laws.grant_lease-ne-zero d.backend d.lease_ttl_seconds 0 t)
        | inr t ↦ rw t λ ok. ground (arith, t)
      ]

  register_self_holds :
      BackendLaws etcd
      → (d : EtcdDiscovery B) (self : ProcessDescriptor) → ltb 0 d.lease_ttl_seconds ≡ true
      → (register_self etcd json d self).0.ok ≡ true
      → nat_eq (register_self etcd json d self).1.lease_id 0 ≡ false
  unfolding register_self put_self
  register_self_holds laws d self wanted =
      let l = ensure_lease etcd json d in
      let f = put_self etcd json l.1 self in
      elim (Bool-cases l.0.ok) [
        | inr t ↦ rw (register_self, t) λ ok. ground (arith, t)
        | inl t ↦ elim (Bool-cases (not f.0.ok && ltb 0 f.1.lease_ttl_seconds)) [
          | inl again ↦ rw (register_self, t, again) λ ok. put_again_holds laws f.1 self ok
          | inr enough ↦
              rw (register_self, t, enough)
                λ ok.
                  subst (λ x. nat_eq x 0 ≡ false) (sym (registered_lease f.1 self f.0))
                    (ensure_lease_holds laws d wanted t)
        ]
      ]

  -- With an etcd that grants no lease 0: a registration that succeeds puts the process in the view
  -- beside the others, and there is a lease where the options want one; a registration that fails
  -- leaves the view and the registration as they were; no registration makes an event.
  pub register_self_lem :
      BackendLaws etcd
      → (d : EtcdDiscovery B) (self : ProcessDescriptor)
      → Registers d self (register_self etcd json d self)
        × ((register_self etcd json d self).0.ok
              && ltb 0 d.lease_ttl_seconds
              && nat_eq (register_self etcd json d self).1.lease_id 0
            ≡ false)
  register_self_lem laws d self =
      (register_self_cases d self, ground (arith, register_self_holds laws d self))
