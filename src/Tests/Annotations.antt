-- ===== src/Tests/Annotations.antt =====
-- A group that takes annotations of one site, an annotation of it, and a reply.
mod Worked
use subtask.Base.{
  ℕ, String, ◌+◌, ◌≡◌, refl, Bool, true, false, Option, none, some, List, [], ◌∷◌, contains, length,
  any, Result, ok, err, inl, arith, string_eq, map,
}
use subtask.Models.{Group, authority, world}
use subtask.Security.Predicates.{Error}
use subtask.Sync.Queue.{Job, single_item, month, add_by_id}
use subtask.Sync.Helpers.{Hit, Source, time, is_forced, get_from_db, get_from_es}
use subtask.Sync.Rounds.{Round, sync_jobs, consider_all, consider, compare, equal}
use subtask.Annotations.Tables.{AnnotationRow, AnnotationSlim, Site, find_group}
use subtask.Annotations.Documents.{Found, change_document}
use subtask.Annotations.Write.{
  CreateData, UpdateData, concurrent_update, missing_reference, no_write, out_of_scope,
  create_annotation, update_annotation, annotation_of, updated_row, root_groupid, store_annotation,
  add,
}
use subtask.Annotations.Delete.{delete_annotation, bulk_delete}
use subtask.Annotations.Checked.{IsChecked}
use subtask.Annotations.History.{Step, create_one, hide_one, delete_all, expunge}
use subtask.Annotations.Queued.{is_there, is_job}
use subtask.Annotations.Created.{
  IsCreated, IsUpdated, create_annotation-IsCreated, update_annotation-IsUpdated,
}
use subtask.Annotations.Hidden.{bulk_delete-kept, bulk_delete-gone}
use subtask.Annotations.Removed.{db_row, delete-removes}

abbrev group : Group
group = record {
  id = 7;
  pubid = "g";
  authority = "x";
  name = "Group";
  creator_id = none;
  enforce_scope = true;
  authority_provided_id = none;
  joinable_by = none;
  readable_by = some world;
  writeable_by = some authority;
  scopes = "https://x" ∷ [];
}

abbrev pub root : AnnotationRow
root = record {
  id = "a1";
  userid = "acct:a@x";
  groupid = "g";
  target_uri = "https://x/1";
  text = "first";
  tags = [];
  extra = [];
  references = [];
  shared = true;
  deleted = false;
  created = 1;
  updated = 1;
  document_id = 5;
}

abbrev slim_root : AnnotationSlim
slim_root = record {
  pubid = "a1";
  created = 1;
  fields = record {
    updated = 1;
    deleted = false;
    shared = true;
    document_id = 5;
    group_id = 7;
    user_id = 3;
    moderated = false;
  };
}

abbrev pub site : Site String
site = record {
  lower = λ s. s;
  annotations = root ∷ [];
  slims = slim_root ∷ [];
  moderations = [];
  metadata = [];
  groups = group ∷ [];
  users = record { id = 3; username = "a"; authority = "x" } ∷ [];
  jobs = [];
  deleted_events = [];
}

abbrev reply : CreateData String String
reply = record {
  userid = "acct:a@x";
  groupid = "other";
  target_uri = "https://x/1";
  text = "second";
  tags = [];
  extra = [];
  references = "a1" ∷ [];
  shared = true;
  document = "page";
  metadata = some "lms";
}

abbrev edit : UpdateData String String
edit = record {
  userid = none;
  groupid = none;
  target_uri = none;
  text = some "third";
  tags = none;
  shared = none;
  extra = [];
  document = none;
  metadata = none;
}

abbrev pub hex : String → String
hex id = id

abbrev pub next_id : List Job → ℕ
next_id jobs = length jobs + 1

-- The page is a document, into which another one is merged.
abbrev documents_of : String → Option String → Option Found
documents_of uri document = some (record { master = 5; duplicates = 6 ∷ [] })

abbrev allowed : Group → Result Error Bool
allowed g = ok true

abbrev limited : ℕ → List AnnotationRow → List AnnotationRow
limited n rows = rows

abbrev replied : AnnotationRow
replied = annotation_of 10 5 "a2" "g" reply

-- An annotation in a group that the caller may not write to, and one that answers nothing, are refused.
refused :
    create_annotation hex next_id 10 documents_of (λ g. ok false) "a2" reply site ≡ err no_write
unfolding create_annotation string_eq
refused = refl

unanswered :
    create_annotation hex next_id 10 documents_of allowed "a2"
      (record reply { references = "a9" ∷ [] })
      site
    ≡ err (missing_reference "a9")
unfolding create_annotation string_eq
unanswered = refl

off_site :
    create_annotation hex next_id 10 documents_of allowed "a2"
      (record reply { target_uri = "https://y" })
      site
    ≡ err out_of_scope
unfolding create_annotation string_eq
off_site = refl

abbrev requests : List (Step String String)
requests =
    record {
      now = 10;
      can_write = allowed;
      documents_of = documents_of;
      call = create_one "a2" reply;
    }
    ∷ record { now = 11; can_write = allowed; documents_of = documents_of; call = hide_one replied }
    ∷ record {
      now = 12;
      can_write = allowed;
      documents_of = documents_of;
      call = delete_all (root ∷ []);
    }
    ∷ record { now = 900; can_write = allowed; documents_of = documents_of; call = expunge }
    ∷ []

abbrev reply_stored : Site String
reply_stored =
    store_annotation hex next_id 10 replied (some "lms") "storage.create_annotation" false
      (add replied (change_document (record { master = 5; duplicates = 6 ∷ [] }) site))

reply_returned :
    create_annotation hex next_id 10 documents_of allowed "a2" reply site
    ≡ ok (replied, reply_stored)
unfolding create_annotation string_eq
reply_returned = refl

create_annotation-IsCreated_example : IsCreated hex 10 allowed reply site (replied, reply_stored)
create_annotation-IsCreated_example =
    create_annotation-IsCreated hex next_id 10 documents_of allowed "a2" reply site
      (replied, reply_stored) reply_returned

-- The documents of two requests are merged at once: the later one is refused.
refused_document :
    create_annotation hex next_id 10 (λ uri document. none) allowed "a2" reply site
    ≡ err concurrent_update
unfolding create_annotation string_eq
refused_document = refl

abbrev edited : AnnotationRow
edited = updated_row 20 false edit root

abbrev edit_stored : Site String
edit_stored =
    store_annotation hex next_id 20 edited none "storage.update_annotation" true
      (change_document (record { master = 5; duplicates = [] }) site)

edit_returned :
    update_annotation hex next_id 20 documents_of allowed root edit false
      "storage.update_annotation" true site
    ≡ ok (edited, edit_stored)
unfolding update_annotation string_eq
edit_returned = refl

update_annotation-IsUpdated_example :
    IsUpdated hex 20 allowed root edit false true site (edited, edit_stored)
update_annotation-IsUpdated_example =
    update_annotation-IsUpdated hex next_id 20 documents_of allowed root edit false
      "storage.update_annotation" true site (edited, edit_stored) edit_returned

bulk_delete-kept_example :
    is_there "a1" (bulk_delete limited 900 site).annotations ≡ is_there "a1" site.annotations
bulk_delete-kept_example =
    bulk_delete-kept limited 900 site "a1" (λ n rows h. h) ((λ h. inl refl), tt)

abbrev expired : AnnotationRow
expired = record root { deleted = true }

abbrev expired_site : Site String
expired_site = record site { annotations = expired ∷ [] }

bulk_delete-gone_example : is_there "a1" (bulk_delete limited 900 expired_site).annotations ≡ false
bulk_delete-gone_example =
    bulk_delete-gone limited 900 expired_site expired [] [] (λ n rows h. refl) (omega arith) refl
      refl (omega arith)
