-- ===== src/OrgService/Creator.antt =====
-- The creator of an organization: the owner after a creation that succeeds; after one that fails, no
-- organization is left where the database answered.
use codity_assignment.Domain.Org.{Organization, MemberRow, owner, Role}
use codity_assignment.OrgService.{
  create, OrgRequest, new_org, or_cleanup, to_org_response, OrgResponse,
}
use codity_assignment.Store.{Db}
use codity_assignment.Base.{
  ℕ, String, ◌≡◌, arith, any_row, false, ◌++◌, ◌∷◌, [], suc, true, refl, none, ap, inl, ◌⊎◌, inr,
  ◌∙◌, ==-refl, sym, subst,
}
use codity_assignment.Errors.{GoError, app_caused, internal}
use codity_assignment.Exec.{◌>>=◌, ◌>>◌, ok, err, map_err, World, Result, attempt}
use codity_assignment.Cascade.{drop_rows}
use codity_assignment.QueueRepo.{taken}
use codity_assignment.UserRepo.{user_has_id}
use codity_assignment.Access.{require_org_role}
use codity_assignment.Exec.Laws.{ok_injective}
use codity_assignment.OrgService.Members.{
  insert_refused, sql_up, member_roles, insert-orgs, delete-orgs, upsert_kept, sole_role,
  owner_passes, drop_none,
}
use codity_assignment.OrgRepo

-- A creation, by its statements.
module _ (to_lower : String → String) (owner_id : ℕ) (r : OrgRequest) (i now at : ℕ) where
  abbrev made : Organization
  made = new_org to_lower r i now

  abbrev member : MemberRow
  member = record { org_id = i; user_id = owner_id; role = owner; joined_at = at }

  create_refused :
      (w : World Db) {e : GoError}
      → ((n : ℕ) → w.down n ≡ false)
      → (OrgRepo.insert_org made w.db).0 ≡ err e
      → (create to_lower owner_id r i now at w).1.db ≡ (OrgRepo.insert_org made w.db).1
  unfolding create OrgRepo.create ◌>>=◌ ◌>>◌ map_err
  create_refused w up h = rw (sql_up (OrgRepo.insert_org made) w (up _)) (rw h refl)

  added :
      (w1 : World Db) {e : GoError}
      → (OrgRepo.upsert_member member w1.db).0 ≡ err e
      → w1.down w1.calls ≡ false
      → w1.down (suc w1.calls) ≡ false
      → ((attempt (OrgRepo.add_member i owner_id owner at)
            >>= or_cleanup i (to_org_response made none))
          w1).1.db.orgs
        ≡ drop_rows (OrgRepo.org_has_id i) (OrgRepo.upsert_member member w1.db).1.orgs
  unfolding OrgRepo.add_member ◌>>=◌ ◌>>◌ map_err
  added w1 k up up' =
      let w2 : World Db = record w1 {
        db = (OrgRepo.upsert_member member w1.db).1;
        calls = suc w1.calls;
      } in
      rw (sql_up (OrgRepo.upsert_member member) w1 up) (rw k (delete-orgs i w2 up'))

  create_stopped :
      (w : World Db) {e : GoError}
      → ((n : ℕ) → w.down n ≡ false)
      → (OrgRepo.insert_org made w.db).0 ≡ ok tt
      → (OrgRepo.upsert_member member (OrgRepo.insert_org made w.db).1).0 ≡ err e
      → (create to_lower owner_id r i now at w).1.db.orgs
        ≡ drop_rows
            (OrgRepo.org_has_id i)
            (OrgRepo.upsert_member member (OrgRepo.insert_org made w.db).1).1.orgs
  unfolding create OrgRepo.create OrgRepo.add_member ◌>>=◌ ◌>>◌ map_err
  create_stopped w up h k =
      let w1 : World Db = record w { db = (OrgRepo.insert_org made w.db).1; calls = suc w.calls } in
      rw (sql_up (OrgRepo.insert_org made) w (up _)) (rw h (added w1 k (up _) (up _)))

  linked :
      (w1 : World Db)
      → (OrgRepo.upsert_member member w1.db).0 ≡ ok tt
      → w1.down w1.calls ≡ false
      → (attempt (OrgRepo.add_member i owner_id owner at)
            >>= or_cleanup i (to_org_response made none))
          w1
        ≡ (
          ok (to_org_response made none),
          record w1 { db = (OrgRepo.upsert_member member w1.db).1; calls = suc w1.calls },
        )
  unfolding OrgRepo.add_member ◌>>=◌ map_err
  linked w1 k up = rw (sql_up (OrgRepo.upsert_member member) w1 up) (rw k refl)

  create_done :
      (w : World Db)
      → ((n : ℕ) → w.down n ≡ false)
      → (OrgRepo.insert_org made w.db).0 ≡ ok tt
      → (OrgRepo.upsert_member member (OrgRepo.insert_org made w.db).1).0 ≡ ok tt
      → ((create to_lower owner_id r i now at w).0 ≡ ok (to_org_response made none))
        × ((create to_lower owner_id r i now at w).1.db
            ≡ (OrgRepo.upsert_member member (OrgRepo.insert_org made w.db).1).1)
  unfolding create OrgRepo.create ◌>>=◌ ◌>>◌ map_err
  create_done w up h k =
      let w1 : World Db = record w { db = (OrgRepo.insert_org made w.db).1; calls = suc w.calls } in
      let run = linked w1 k (up _) in
      rw (sql_up (OrgRepo.insert_org made) w (up _)) (
        rw h (
          ap (λ (p : Result OrgResponse × World Db). p.0) run,
          ap (λ (p : Result OrgResponse × World Db). p.1.db) run,
        ))

  create_refusal :
      (w : World Db) {e : GoError}
      → ((n : ℕ) → w.down n ≡ false)
      → (OrgRepo.insert_org made w.db).0 ≡ err e
      → (create to_lower owner_id r i now at w).0
        ≡ err (taken "organization slug already exists" "create org" e)
  unfolding create OrgRepo.create ◌>>=◌ ◌>>◌ map_err
  create_refusal w up h = rw (sql_up (OrgRepo.insert_org made) w (up _)) (rw h refl)

  link_refusal :
      (w1 : World Db) {e : GoError}
      → (OrgRepo.upsert_member member w1.db).0 ≡ err e
      → w1.down w1.calls ≡ false
      → ((attempt (OrgRepo.add_member i owner_id owner at)
            >>= or_cleanup i (to_org_response made none))
          w1).0
        ≡ err (app_caused internal "could not assign org owner" (OrgRepo.unknown_user e))
  unfolding OrgRepo.add_member ◌>>=◌ ◌>>◌ map_err
  link_refusal w1 k up = rw (sql_up (OrgRepo.upsert_member member) w1 up) (rw k refl)

  stop_refusal :
      (w : World Db) {e : GoError}
      → ((n : ℕ) → w.down n ≡ false)
      → (OrgRepo.insert_org made w.db).0 ≡ ok tt
      → (OrgRepo.upsert_member member (OrgRepo.insert_org made w.db).1).0 ≡ err e
      → (create to_lower owner_id r i now at w).0
        ≡ err (app_caused internal "could not assign org owner" (OrgRepo.unknown_user e))
  unfolding create OrgRepo.create ◌>>=◌ ◌>>◌ map_err
  stop_refusal w up h k =
      let w1 : World Db = record w { db = (OrgRepo.insert_org made w.db).1; calls = suc w.calls } in
      rw (sql_up (OrgRepo.insert_org made) w (up _)) (rw h (link_refusal w1 k (up _)))

  -- The three ways of a creation that is answered: both statements succeed, or one is refused.
  ways :
      (w : World Db)
      → (((OrgRepo.insert_org made w.db).0 ≡ ok tt)
          × ((OrgRepo.upsert_member member (OrgRepo.insert_org made w.db).1).0 ≡ ok tt))
        ⊎ (((e : GoError) × ((OrgRepo.insert_org made w.db).0 ≡ err e))
            ⊎ (((OrgRepo.insert_org made w.db).0 ≡ ok tt)
                × ((e : GoError) × ((OrgRepo.upsert_member member
                        (OrgRepo.insert_org made w.db).1).0
                      ≡ err e))))
  ways w =
      by_results (OrgRepo.insert_org made w.db).0 refl
        (OrgRepo.upsert_member member (OrgRepo.insert_org made w.db).1).0 refl
    where
      by_results :
          (a : Result (Unit {0}))
          → (OrgRepo.insert_org made w.db).0 ≡ a
          → (b : Result (Unit {0}))
          → (OrgRepo.upsert_member member (OrgRepo.insert_org made w.db).1).0 ≡ b
          → (((OrgRepo.insert_org made w.db).0 ≡ ok tt)
              × ((OrgRepo.upsert_member member (OrgRepo.insert_org made w.db).1).0 ≡ ok tt))
            ⊎ (((e : GoError) × ((OrgRepo.insert_org made w.db).0 ≡ err e))
                ⊎ (((OrgRepo.insert_org made w.db).0 ≡ ok tt)
                    × ((e : GoError) × ((OrgRepo.upsert_member member
                            (OrgRepo.insert_org made w.db).1).0
                          ≡ err e))))
      by_results (ok u) a (ok v) b = inl (a, b)
      by_results (ok u) a (err e) b = inr (inr (a, (e, b)))
      by_results (err e) a r b = inr (inl (e, a))

  -- A creation that fails while the database answers every call leaves the organizations as they
  -- were: where only its second statement is refused, the inserted row is deleted again.
  pub create-undone :
      (w : World Db) (e : GoError)
      → ((n : ℕ) → w.down n ≡ false)
      → (create to_lower owner_id r i now at w).0 ≡ err e
      → (create to_lower owner_id r i now at w).1.db.orgs ≡ w.db.orgs
  unfolding new_org
  create-undone w e up h = elim (ways w) [
    | inl (a, b) ↦ absurd (let c = (create_done w up a b).0 in cc)
    | inr (inl (e', a)) ↦
        ap (λ (d : Db). d.orgs) (create_refused w up a ∙ insert_refused made w.db a)
    | inr (inr (a, (e', b))) ↦
        let (fresh, new) = insert-orgs made w.db a in
        create_stopped w up a b
        ∙ ap (drop_rows (OrgRepo.org_has_id i))
            (upsert_kept member (OrgRepo.insert_org made w.db).1 ∙ ap (λ (d : Db). d.orgs) new)
        ∙ drop_none (OrgRepo.org_has_id i) w.db.orgs made fresh (==-refl i)
  ]

  sole_member :
      (d : Db)
      → any_row (OrgRepo.membership i owner_id) d.org_members ≡ false
      → (OrgRepo.upsert_member member d).0 ≡ ok tt
      → (any_row (user_has_id owner_id) d.users ≡ true)
        × ((OrgRepo.upsert_member member d).1
            ≡ record d { org_members = d.org_members ++ member ∷ [] })
  unfolding OrgRepo.upsert_member
  sole_member d h k = ground arith

  -- Where the database answers, no member refers yet to the new id, and the creation succeeds, the
  -- middleware lets the creator pass as owner of the new organization, for every least role, while
  -- the tables stay so.
  pub create-owner :
      (resp : OrgResponse) (least : Role) (w later : World Db)
      → any_row (OrgRepo.membership i owner_id) w.db.org_members ≡ false
      → ((n : ℕ) → w.down n ≡ false)
      → (create to_lower owner_id r i now at w).0 ≡ ok resp
      → later.db ≡ (create to_lower owner_id r i now at w).1.db
      → later.down later.calls ≡ false
      → require_org_role (member_roles later) least (ok resp.id) owner_id ≡ ok owner
  unfolding new_org to_org_response
  create-owner resp least w later fresh up h same up' = elim (ways w) [
    | inr (inl (e, a)) ↦ absurd (let c = create_refusal w up a in cc)
    | inr (inr (a, (e, b))) ↦ absurd (let c = stop_refusal w up a b in cc)
    | inl (a, b) ↦
        let (unused, new) = insert-orgs made w.db a in
        let (answer, after) = create_done w up a b in
        let d1 = (OrgRepo.insert_org made w.db).1 in
        let fresh' : any_row (OrgRepo.membership i owner_id) d1.org_members ≡ false =
          ap (λ (d : Db). any_row (OrgRepo.membership i owner_id) d.org_members) new ∙ fresh in
        let (user, d2) = sole_member d1 fresh' b in
        let tables = same ∙ after ∙ d2 in
        let id : resp.id ≡ i =
          ap (λ (v : OrgResponse). v.id)
            (ok_injective resp (to_org_response made none) (sym h ∙ answer)) in
        let users = ap (λ (d : Db). any_row (user_has_id owner_id) d.users) tables ∙ user in
        let role =
          sole_role member d1.org_members later fresh' (ap (λ (d : Db). d.org_members) tables) users
            up' in
        subst (λ k. require_org_role (member_roles later) least (ok k) owner_id ≡ ok owner) (sym id)
          (owner_passes (member_roles later) least i owner_id role)
  ]
