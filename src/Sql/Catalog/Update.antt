-- ===== src/Sql/Catalog/Update.antt =====
-- What `catalog_update_table` wrote is what `catalog_get_table` reads.
use mathlib.Core.Path.{subst}
use amidb.Base.{
  ℕ, ◌*◌, ◌^◌, ◌≤◌, ◌<◌, ◌≡◌, refl, ◌∙◌, ap, sym, Bool, true, false, Option, some, List, length,
}
use amidb.Base.Effect.{succeeded}
use amidb.Os.File.{Dos, beginning, file_seek}
use amidb.Os.File.Laws.{DosLaws}
use amidb.Storage.Pager.Defs.{
  Pager, page_size, max_pages, stamp_page, pager_read_page, pager_write_page,
}
use amidb.Storage.Pager.Pages.{IsReadable, pager_read_page-pager_write_page}
use amidb.Storage.Btree.Node.{Node}
use amidb.Storage.Btree.Tree.Ops.{Tree, with_cache, write_page}
use amidb.Storage.Btree.Tree.Search.{btree_search}
use amidb.Storage.Btree.Tree.Resident.{SameTree, Holds}
use amidb.Storage.Btree.Tree.Model.{
  PageTree, leaf, inner, page_of, IsWithin, IsOrdered, Has, IsStored,
}
use amidb.Storage.Btree.Tree.Lookup.{btree_search-Has, IsStored-SameTree}
use amidb.Sql.Catalog.Schema.{TableSchema, serialize_schema, deserialize_schema}
use amidb.Sql.Catalog.RoundTrip.{IsSchema, deserialize_schema-serialize_schema}
use amidb.Sql.Catalog.Page.{length-serialize_schema, serialize_schema-IsByte, drop-stamp_page}
use amidb.Sql.Catalog.Ops.{
  Catalog, catalog_hash_name, read_page, catalog_get_table, catalog_update_table,
}

module _ {dos : Dos} {granted : Bool} where
  -- The catalog's tree: its pages are in the cache, and its entry for a name is a page.
  pub record Knows (cat : Catalog dos granted) (tree : PageTree) (levels : ℕ) (name : List ℕ)
      (page : ℕ) : Type 0 where
    pub root : cat.tree.root_page ≡ page_of tree
    pub within : IsWithin levels tree
    pub ordered : IsOrdered 0 (2 ^ 32) tree
    pub stored : IsStored cat.tree tree
    pub entry : Has tree (catalog_hash_name name) page

  -- A search that finds the page changes neither the tree nor the pager.
  pub search-eq :
      (cat : Catalog dos granted) (tree : PageTree) (levels page : ℕ) (name : List ℕ)
      → Knows cat tree levels name page
      → (t : Tree dos granted) × (btree_search levels (catalog_hash_name name) cat.tree
          ≡ (t, some page))
        × SameTree cat.tree t
  search-eq cat tree levels page name k =
      let (found, same) =
        btree_search-Has cat.tree tree levels (catalog_hash_name name) k.root k.within k.ordered
          k.stored in
      let r = btree_search levels (catalog_hash_name name) cat.tree in
      (r.0, ap (λ o. (r.0, o)) ((found page).1 k.entry), same)

  Holds-pager :
      (t : Tree dos granted) (pager : Pager dos) (page : ℕ) (node : Node)
      → Holds t page node
      → Holds (with_cache t (record (t.txn.cache) { pager = pager })) page node
  Holds-pager t pager page node h = record { entry = h.entry; found = h.found; read = h.read }

  IsStored-pager :
      (t : Tree dos granted) (pager : Pager dos) (tree : PageTree)
      → IsStored t tree
      → IsStored (with_cache t (record (t.txn.cache) { pager = pager })) tree
  IsStored-pager t pager (leaf page node) (h, type) = (Holds-pager t pager page node h, type)
  IsStored-pager t pager (inner page node kids) (h, type, stored) = (
    Holds-pager t pager page node h,
    type,
    λ i le.
        let (child, valid, kid) = stored i le in
        (child, valid, IsStored-pager t pager (kids i) kid),
  )

  -- What a successful update leaves: the page is written, and the catalog knows it still.
  pub record Updated (big : Bool) (cat cat' : Catalog dos granted) (tree : PageTree) (levels : ℕ)
      (schema : TableSchema) (page : ℕ) : Type 0 where
    pub written :
        pager_write_page dos granted page (serialize_schema big schema) cat.tree.txn.cache.pager
        ≡ (cat'.tree.txn.cache.pager, true)
    pub known : Knows cat' tree levels schema.name page

  -- The catalog after a write of the pager that ended so.
  abbrev wrote :
      Catalog dos granted
      → Tree dos granted
      → Pager dos × Bool
      → Catalog dos granted × Option (Unit {0})
  wrote cat t r =
      (record cat { tree = with_cache t (record (t.txn.cache) { pager = r.0 }) }, succeeded r.1)

  wrote-inv :
      (cat cat' : Catalog dos granted) (t : Tree dos granted) (r : Pager dos × Bool)
      → wrote cat t r ≡ (cat', some tt)
      → (r ≡ (r.0, true)) × (wrote cat t r).0 ≡ cat'
  wrote-inv cat cat' t (pager, true) e = (refl, cc)
  wrote-inv cat cat' t (pager, false) e = cc

  pub catalog_update_table-Updated :
      (big : Bool) (cat cat' : Catalog dos granted) (tree : PageTree) (levels page : ℕ)
      (schema : TableSchema)
      → Knows cat tree levels schema.name page
      → catalog_update_table big levels schema cat ≡ (cat', some tt)
      → Updated big cat cat' tree levels schema page
  unfolding catalog_update_table write_page
  catalog_update_table-Updated big cat cat' tree levels page schema k e =
      let (t, found, same) = search-eq cat tree levels page schema.name k in
      let bytes = serialize_schema big schema in
      let r = pager_write_page dos granted page bytes t.txn.cache.pager in
      let e' : wrote cat t r ≡ (cat', some tt) = rw found at e in
      let (done, result) = wrote-inv cat cat' t r e' in
      subst (λ c. Updated big cat c tree levels schema page) result
        record {
          written = ap (pager_write_page dos granted page bytes) (sym same.cached.pagers) ∙ done;
          known = record {
            root = same.root ∙ k.root;
            within = k.within;
            ordered = k.ordered;
            stored = IsStored-pager t r.0 tree (IsStored-SameTree cat.tree t tree same k.stored);
            entry = k.entry;
          };
        }

  catalog_get_table-eq :
      (big : Bool) (cat : Catalog dos granted) (tree : PageTree) (levels page : ℕ)
      (name buffer : List ℕ)
      → Knows cat tree levels name page
      → (pager_read_page dos page cat.tree.txn.cache.pager).1 ≡ some buffer
      → (catalog_get_table big levels name cat).1 ≡ some (deserialize_schema big buffer)
  unfolding catalog_get_table read_page
  catalog_get_table-eq big cat tree levels page name buffer k e =
      let (t, found, same) = search-eq cat tree levels page name k in
      let read : (pager_read_page dos page t.txn.cache.pager).1 ≡ some buffer =
        ap (λ p. (pager_read_page dos page p).1) same.cached.pagers ∙ e in
      rw (found, read) refl

module _ (dos : Dos) (laws : DosLaws dos) where
  open laws use {contents}

  -- After a successful `catalog_update_table` of a table that the catalog has, the Seek before its
  -- write included, `catalog_get_table` gives the schema that was put there, if its Seek and its Read
  -- succeed. The catalog's tree is in the cache and has the table's name for a page that is counted
  -- and begins within the file; the schema fits its structure; dos.library behaves as documented.
  pub catalog_get_table-catalog_update_table :
      (granted big : Bool) (cat cat' : Catalog dos granted) (tree : PageTree) (levels page : ℕ)
      (schema : TableSchema)
      → Knows cat tree levels schema.name page
      → catalog_update_table big levels schema cat ≡ (cat', some tt)
      → IsSchema schema
      → cat.tree.txn.cache.pager.header.page_count ≤ max_pages
      → page < cat.tree.txn.cache.pager.header.page_count
      → page * page_size ≤ length (contents cat.tree.txn.cache.pager.file)
      → (file_seek dos cat.tree.txn.cache.pager.file (page * page_size) beginning).1 ≡ true
      → IsReadable dos laws page cat'.tree.txn.cache.pager
      → (catalog_get_table big levels schema.name cat').1 ≡ some schema
  catalog_get_table-catalog_update_table granted big cat cat' tree levels page schema k e fits
        counts counted within sought readable =
      let u = catalog_update_table-Updated big cat cat' tree levels page schema k e in
      let bytes = serialize_schema big schema in
      let read =
        (pager_read_page-pager_write_page dos laws granted page bytes cat.tree.txn.cache.pager
          cat'.tree.txn.cache.pager u.written counts counted within
          (serialize_schema-IsByte big schema fits) (length-serialize_schema big schema fits) sought
          readable).0 in
      catalog_get_table-eq big cat' tree levels page schema.name (stamp_page page bytes) u.known
        read
      ∙ ap some (
          deserialize_schema-serialize_schema big schema (stamp_page page bytes) fits
            (drop-stamp_page page bytes))
