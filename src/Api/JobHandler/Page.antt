-- ===== src/Api/JobHandler/Page.antt =====
-- The page of a listing, from the query of the request to the statement.
use codity_assignment.Base.{
  refl, ℕ, List, length, take, ◌≤◌, Option, arith, length-take, leb_ℤ, pos, ◌≡◌, true, pos_part, ℤ,
  ltb_ℤ, negsuc, false, Bool, if◌then◌else◌,
}
use codity_assignment.Api.JobHandler.{page_filter, offset_of, limit_of}
use codity_assignment.JobRepo.{page_limit, page_of}
use codity_assignment.Api.{Request}
use codity_assignment.Domain.Job.{Status, Job}
use codity_assignment.Store.{Db}
use codity_assignment.Exec.{ok}

length_page : {A : Type 0} (n : ℕ) (xs : List A) → length (take n xs) ≤ n
length_page n xs = omega (arith, length-take n xs)

if_false : {A : Type 0} {b : Bool} (x y : A) → b ≡ false → (if b then x else y) ≡ y
if_false x y h = rw h refl

limit_range :
    (l : ℤ)
    → (leb_ℤ (pos 1) (limit_of l) ≡ true)
      × (leb_ℤ (limit_of l) (pos 200) ≡ true)
      × (page_limit (limit_of l) ≡ limit_of l)
unfolding page_limit
limit_range (pos n) = ground arith
limit_range (negsuc n) = ground arith

offset_range :
    (o : ℤ) → (leb_ℤ (pos 0) (offset_of o) ≡ true) × (ltb_ℤ (offset_of o) (pos 0) ≡ false)
offset_range (pos n) = ground arith
offset_range (negsuc n) = ground arith

-- Whatever limit, offset and type the query asks for, with a status of the enum or none, the page of
-- a queue is not refused: the limit is between 1 and 200 and is the one that the statement uses, the
-- offset is not negative, and no more jobs than the limit are listed.
pub page_of-page_filter :
    (req : Request) (status : Option Status) (queue_id : ℕ) (d : Db)
    → let f = record (page_filter req) { status = status } in
      (leb_ℤ (pos 1) f.limit ≡ true)
      × (leb_ℤ f.limit (pos 200) ≡ true)
      × (leb_ℤ (pos 0) f.offset ≡ true)
      × (page_limit f.limit ≡ f.limit)
      × ((rows : List Job) × (page_of queue_id f d ≡ ok rows) × (length rows ≤ pos_part f.limit))
unfolding page_filter page_of
page_of-page_filter req status queue_id d =
    let (least, most, same) = limit_range (req.query_int "limit" (pos 50)) in
    let (from, admitted) = offset_range (req.query_int "offset" (pos 0)) in
    (least, most, from, same, (_, if_false _ _ admitted, rw same (length_page _ _)))
