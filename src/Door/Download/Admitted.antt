-- ===== src/Door/Download/Admitted.antt =====
-- What holds of a download that goes on to reserve a range (internal/door/door.go).
use aim_data_gateway.Prelude.{
  ℕ, ◌+◌, ◌-◌, ◌/◌, ◌≤◌, ◌<◌, ◌≡◌, ◌⊎◌, Bool, true, false, some, List, length,
}
use aim_data_gateway.Ledger.State.{
  Permission, FileRow, Db, find_permission, find_file, find_offer, block_size,
}
use aim_data_gateway.Ledger.Reserve.{offered_for_listing}
use aim_data_gateway.Ledger.Prepare.{Config}
use aim_data_gateway.Door.{ByteRange, parse_range}
use aim_data_gateway.Door.Download.{reserving, bound_for, closed_for, approved, range_answer}

-- The permission is for this gateway and file and before its transfer deadline; it is bound and is the
-- stored one, or its start deadline is ahead and the file is offered for listing; the stored file is
-- not marked as changed, has the permitted hash, as many block hashes as its size takes, and is in the
-- ceiling; it is approved locally where the configuration wants it; and the range is that of the header.
pub record IsAdmitted (gateway : ℕ) (c : Config) (within : FileRow → Bool) (db : Db)
    (p : Permission) (fid : ℕ) (range : List ℕ) (now : ℕ) (r : ByteRange) (f : FileRow)
    : Type 0 where
  pub audience : p.audience ≡ gateway
  pub file : p.file_id ≡ fid
  pub stored : find_file db p.file_id ≡ some f
  pub unchanged : f.changed ≡ 0
  pub same_hash : f.sha ≡ p.sha256
  pub blocks : length f.block_hashes ≡ (f.size + block_size - 1) / block_size
  pub in_ceiling : within f ≡ true
  pub approval :
      (c.offer_requires_local_approval ≡ false)
      ⊎ (approved (find_offer db p.file_id p.sha256 p.listing_version_id) ≡ true)
  pub in_time : now < p.transfer_deadline
  pub usable :
      (bound_for p (find_permission db p.jti) ≡ true)
      ⊎ ((now < p.start_deadline)
          × (offered_for_listing (find_offer db p.file_id p.sha256 p.listing_version_id) ≡ true))
  pub not_closed : closed_for p (find_permission db p.jti) ≡ false
  pub some_bytes : 0 < f.size
  pub parsed : parse_range range f.size ≡ some r
  pub ordered : r.start ≤ r.end
  pub inside : r.end < f.size

-- The checks of the file, in the order of `file_answer`.
module _ (c : Config) (within : FileRow → Bool) (db : Db) (p : Permission) (range : List ℕ)
    (now stamp : ℕ) (r : ByteRange) where
  abbrev FilePasses : FileRow → Type 0
  FilePasses f =
      (f.changed ≡ 0)
      × (f.sha ≡ p.sha256)
      × (length f.block_hashes ≡ (f.size + block_size - 1) / block_size)
      × (within f ≡ true)
      × ((c.offer_requires_local_approval ≡ false)
          ⊎ (approved (find_offer db p.file_id p.sha256 p.listing_version_id) ≡ true))
      × (now < p.transfer_deadline)
      × ((bound_for p (find_permission db p.jti) ≡ true) ⊎ (now < p.start_deadline))
      × (closed_for p (find_permission db p.jti) ≡ false)
      × (range_answer f range ≡ reserving r)

module _ (gateway : ℕ) (c : Config) (within : FileRow → Bool) (db : Db) (p : Permission) (fid : ℕ)
    (range : List ℕ) (now stamp : ℕ) (r : ByteRange) where
  -- The checks of the permission, in the order of `permitted_answer`.
  abbrev PermissionPasses : Type 0
  PermissionPasses =
      (p.audience ≡ gateway)
      × (p.file_id ≡ fid)
      × ((bound_for p (find_permission db p.jti) ≡ true)
          ⊎ (offered_for_listing (find_offer db p.file_id p.sha256 p.listing_version_id) ≡ true))
