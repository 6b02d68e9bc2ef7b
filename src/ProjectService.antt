-- ===== src/ProjectService.antt =====
-- backend/internal/service/project/service.go. `i` is the value of `uuid.New()`, `now` the clock, `at`
-- NOW(); `to_lower` is `strings.ToLower`, `sha256_hex` the hash of a key, and `random` the hexadecimal
-- text of the random bytes, or the error of their source.
pub mod Rotation
use Prim.Native.String.{String, [], ◌∷◌}
use codity_assignment.Domain.Project.{Project, admin}
use codity_assignment.Exec.{Result, err, Exec, ◌>>=◌, ok, pure, map_err, ◌>>◌, attempt, raise, lift}
use codity_assignment.Base.{Bool, ℕ, str_append, suc, true, zero, List, map}
use codity_assignment.Text.{trim_space}
use codity_assignment.Errors.{wrapf, app_caused, internal}
use codity_assignment.Store.{Db}
use codity_assignment.ProjectRepo

pub record ProjectRequest : Type 0 where
  pub name : String
  pub slug : String
  pub description : String

pub record ProjectUpdate : Type 0 where
  pub name : String
  pub description : String

pub record ProjectResponse : Type 0 where
  pub id : ℕ
  pub org_id : ℕ
  pub name : String
  pub slug : String
  pub description : String
  pub api_key_prefix : String
  pub is_active : Bool
  pub created_at : ℕ
  pub updated_at : ℕ

pub record ApiKey : Type 0 where
  pub api_key : String
  pub api_key_prefix : String

-- A raw key, its hash, and its prefix.
pub record NewKey : Type 0 where
  pub raw_key : String
  pub hash : String
  pub prefix : String

-- `rawKey[:n]`; the key is made of one-byte characters.
unfoldable pub first_chars : ℕ → String → String
first_chars zero s = []
first_chars (suc n) [] = []
first_chars (suc n) (c ∷ s) = c ∷ first_chars n s

unfoldable pub to_project_response : Project → ProjectResponse
to_project_response p = record {
  id = p.id;
  org_id = p.org_id;
  name = p.name;
  slug = p.slug;
  description = p.description;
  api_key_prefix = p.api_key_prefix;
  is_active = p.is_active;
  created_at = p.created_at;
  updated_at = p.updated_at;
}

module _ (sha256_hex : String → String) where
  abbrev pub key_from : String → NewKey
  key_from random =
      let raw = str_append "sk_" random in
      record {
        raw_key = raw;
        hash = sha256_hex raw;
        prefix = str_append (first_chars 15 raw) "...";
      }

  unfoldable pub generate_api_key : Result String → Result NewKey
  unfolding first_chars
  generate_api_key (err e) = err (wrapf "rand read" e)
  generate_api_key (ok random) = ok (key_from random)

  abbrev pub shown : NewKey → ApiKey
  shown k = record { api_key = k.raw_key; api_key_prefix = k.prefix }

  unfoldable pub new_project : (String → String) → ℕ → ProjectRequest → NewKey → ℕ → ℕ → Project
  new_project to_lower org_id r k i now = record {
    id = i;
    org_id = org_id;
    name = trim_space r.name;
    slug = to_lower (trim_space r.slug);
    description = trim_space r.description;
    api_key_hash = k.hash;
    api_key_prefix = k.prefix;
    is_active = true;
    created_at = now;
    updated_at = now;
  }

  -- The project is deleted again if its admin cannot be added; the error of that is ignored.
  abbrev or_cleanup :
      ℕ → ProjectResponse × ApiKey → Result (Unit {0}) → Exec Db (ProjectResponse × ApiKey)
  or_cleanup i answer (ok u) = pure answer
  or_cleanup i answer (err e) = do
    attempt (ProjectRepo.delete i)
    raise (app_caused internal "could not assign project admin" e)

  unfoldable pub create :
      (String → String)
      → ℕ
      → ℕ
      → ProjectRequest
      → Result String
      → ℕ
      → ℕ
      → ℕ
      → Exec Db (ProjectResponse × ApiKey)
  unfolding new_project generate_api_key to_project_response
  create to_lower org_id owner_id r random i now at = do
    k ← map_err (app_caused internal "could not generate API key") (lift (generate_api_key random))
    ProjectRepo.create (new_project to_lower org_id r k i now)
    added ← attempt (ProjectRepo.add_member i owner_id admin at)
    or_cleanup i (to_project_response (new_project to_lower org_id r k i now), shown k) added

  abbrev pub rotated : NewKey → ℕ → Project → Project
  rotated k now p = record p { api_key_hash = k.hash; api_key_prefix = k.prefix; updated_at = now }

  unfoldable pub rotate_api_key : ℕ → Result String → ℕ → Exec Db ApiKey
  unfolding generate_api_key
  rotate_api_key i random now = do
    p ← ProjectRepo.get_by_id i
    k ← map_err (app_caused internal "could not generate API key") (lift (generate_api_key random))
    ProjectRepo.update (rotated k now p)
    pure (shown k)

unfoldable pub get_by_id : ℕ → Exec Db ProjectResponse
unfolding to_project_response
get_by_id i = do p ← ProjectRepo.get_by_id i; pure (to_project_response p)

unfoldable pub list_by_org : (String → String → Bool) → ℕ → Exec Db (List ProjectResponse)
unfolding to_project_response
list_by_org before org_id = do
  ps ← ProjectRepo.list_by_org_id before org_id
  pure (map to_project_response ps)

abbrev project_changed : ProjectUpdate → ℕ → Project → Project
project_changed r now p = record p {
  name = trim_space r.name;
  description = trim_space r.description;
  updated_at = now;
}

unfoldable pub update : ℕ → ProjectUpdate → ℕ → Exec Db ProjectResponse
unfolding to_project_response
update i r now = do
  p ← ProjectRepo.get_by_id i
  ProjectRepo.update (project_changed r now p)
  pure (to_project_response (project_changed r now p))

unfoldable pub delete : ℕ → Exec Db (Unit {0})
delete i = ProjectRepo.delete i
