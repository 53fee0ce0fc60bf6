-- ===== src/Tests/Handlers.antt =====
-- The handlers of fuse.cc over the client that keeps its files in memory.
use se.Base.{ℕ, ◌≡◌, refl, [], false, arith, some, none}
use se.InodeManager.{t_file}
use se.Spec.{put_file}
use se.Content.{splice}
use se.Yfs.Lookup.{Same}
use se.Fuse.{Stat, Entry, Reply, fuseserver_getattr, fuseserver_write, fuseserver_create}
use se.Fuse.Attributes.{fuseserver_getattr-view}
use se.Fuse.Requests.{fuseserver_write-splice, fuseserver_create_fresh}
use se.Tests.Memory.{Memory, IsMemory, memory_client, memory_laws}
use se.Tests.Format.{name_b, two_entries, two_entries-IsEntry}
use se.Tests.Files.{name_c, some_file, start, start-IsMemory, has_no_c, short, short_file}

abbrev unset : Entry
unset = record {
  ino = 0;
  attr = record { ino = 0; mode = 0; nlink = 0; atime = 0; mtime = 0; ctime = 0; size = 0 };
}

fuseserver_getattr-view_example :
    (t : Memory) × (st : Stat) × (fuseserver_getattr memory_client 2 start
      ≡ some (Reply.attr st, t))
    × (st.ino ≡ 2)
    × (st.mode ≡ 0o100666)
    × (st.size ≡ 3)
    × Same memory_client memory_laws start t
fuseserver_getattr-view_example =
    fuseserver_getattr-view memory_client memory_laws 2 start start-IsMemory (omega arith)

fuseserver_write-splice_example :
    (t : Memory) × (fuseserver_write memory_client 2 name_b 2 5 start ≡ some (Reply.wrote 4, t))
    × IsMemory t
    × (t.files
        ≡ put_file start.files 2
            (some (record { type = t_file; content = splice some_file.content 5 name_b })))
fuseserver_write-splice_example =
    fuseserver_write-splice memory_client memory_laws start 2 5 name_b some_file.content t_file
      start-IsMemory refl short_file (omega arith)

fuseserver_create_fresh_example :
    (t : Memory) × (inum : ℕ) × (st : Stat) × (fuseserver_create memory_client 1 name_c false 0
        unset start
      ≡ some (Reply.created (record { ino = inum; attr = st }), t))
    × (start.files inum ≡ none)
    × (t.files inum ≡ some (record { type = t_file; content = [] }))
    × (st.ino ≡ inum)
    × (st.mode ≡ 0o100666)
    × (st.size ≡ 0)
fuseserver_create_fresh_example =
    fuseserver_create_fresh memory_client memory_laws start 1 two_entries name_c false 0 unset
      start-IsMemory refl two_entries-IsEntry has_no_c (omega arith) short (omega arith)
