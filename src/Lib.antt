-- ===== src/Lib.antt =====
-- h is the web application behind a web annotation service: users write annotations on pages, in
-- groups that decide who may read and write; a search index holds a copy of the annotations, and a
-- streamer tells open web sockets of new ones. This library models the parts that decide who may
-- do what, who is told of what, how annotations and users are written and deleted, and how the
-- caches, the queue and the index are kept beside the database.
--
-- How the parts meet: every view asks `identity_permits` for a permission of an identity on a
-- context. The streamer asks the same of each socket that its filter lets through, and asks the
-- NIPSA service whether an annotator is flagged. The services that write and delete annotations
-- ask for the permission to write to a group, keep the slim rows beside the annotations, and put
-- jobs on the queue of `JobQueueService`, as do the NIPSA service, the renaming and the deletion
-- of users; `AnnotationSyncService` works the jobs off in rounds.
--
--   Base: what the modules share. Lists, Boolean tests, dictionaries as association lists of which
--     the first entry for a key counts, texts, and `Result`, a value or the exception that was
--     raised. A set is a list of which only the members count.
--   Models: the columns of h/models/ that the code below reads.
--   Security: h/security/permissions.py and identity.py (Permission, Identity), predicates.py
--     (Predicates: the predicate functions as `run`, their `requires`; Clauses:
--     `resolve_predicates`), permission_map.py (PermissionMap: the declared map and its value after
--     the import), permits.py (Permits). An attribute error of Python is a value of `Error`. The
--     contexts are those of h/traversal/annotation.py and group.py.
--   Groups: the type, the groupid and the validators of h/models/group.py, with h/util/group.py.
--     The regular expressions are functions on characters.
--   Streamer: h/streamer/filter.py (Filter, with `expand_uri` of h/storage.py; Clauses for how the
--     JSON of a filter is read), h/streamer/websocket.py (Client: `handle_message` and its handlers)
--     and h/streamer/messages.py (Messages). A handler returns what was sent and what was raised.
--   Annotations: h/services/annotation_write.py (Tables, Documents, Write), annotation_delete.py
--     and annotation_moderation.py (Delete), with the upsert of annotation_metadata.py and the look-
--     up of annotation_read.py; `change_document` is the merging of documents; History has any
--     sequence of their calls. A service takes the tables, a `Site`, and returns the next ones, or
--     the error that rolls them back. Ids is URLSafeUUID of h/db/types.py.
--   Users: h/util/user.py (Userid), the validators of h/models/user.py (Username),
--     h/services/user.py (Service), user_rename.py (Rename), and user_delete.py (Worker for the
--     limited statements, Purge for the rest). LimitReached is caught and rolls nothing back, so it
--     carries the tables.
--   Services: h/services/nipsa.py (Nipsa), flag.py (Flag), group_members.py (GroupMembers),
--     auth_ticket.py (AuthTicket) and feature.py (Feature). Each is a record of the tables that it
--     works on and of its caches; an operation takes the record and returns the next one.
--   Activity: h/activity/bucketing.py, the timeframes and document buckets of the activity pages.
--   Paginator: h/paginator.py, the page that is shown and the numbers of the page navigation.
--   Oauth: h/services/oauth/_validator.py, with the rows of h/models/auth_client.py, token.py and
--     authz_code.py (Rows for the look-ups, Validator and Bearer for the operations).
--   Sync: h/models/job.py and h/services/job_queue.py (Queue), and h/services/annotation_sync.py
--     (Counter, Helpers for its two readers, Rounds for `sync`). A round returns the queue that it
--     leaves and what the indexer is told.
--   Tests: runs of the model, and each theorem at concrete data.
--
-- Bounds and fuel: `identity_permits` and `expand_predicate` call themselves, and take as fuel how
-- deep their calls may nest; without fuel they return `recursion_error`. The predicates require
-- each other at most three deep, so 3 is enough to expand any map; the clauses of the map ask for
-- a permission whose own clauses ask for none, so 2 is enough to evaluate it (`depth`).
-- `purge_times` repeats a purge as often as it is told; as many times as there are rows, and one
-- more, are enough. All other loops are over lists, or over a number of rounds that the code
-- itself bounds. Times are numbers of seconds, and the ids are unbounded numbers, as they are in
-- Python.
--
-- Parameters: URI normalization, what the read service finds for the streamer, the documents that
-- the database finds for a URI, the JSON presenters, the hits of a search in Elasticsearch,
-- `isoparse`, the user service where other services use it, which rows other transactions have
-- locked and which a LIMIT leaves, the ids and the time that the database gives a row, `lower` of
-- the database, base64 and `uuid`, the months of the calendar, and the hexadecimal form of an
-- annotation id where the queue needs it. The theorems hold for each of them, or name what they
-- need.
--
-- Not modelled: views, schemas, templates, emails, feeds, the command line, migrations and report
-- queries, which pass data on or are SQL; the search queries and the indexer, which are made for
-- Elasticsearch; the threads and queues of the streamer's worker; the redirect URIs and the caches
-- of the OAuth validator; the services on documents, passwords, sign-up and the creation of
-- groups; the selectors and the rendered text of annotations; the time zones of datetimes; what
-- the database refuses when a transaction ends.
pub mod Base
pub mod Models
pub mod Security
pub mod Groups
pub mod Streamer
pub mod Annotations
pub mod Users
pub mod Services
pub mod Activity
pub mod Paginator
pub mod Oauth
pub mod Sync
pub mod Tests
