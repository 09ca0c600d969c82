-- ===== src/Inception/Queue.antt =====
-- inception/writerstack.go: `ConditionalWrite`, the writes that are pending. The generator's copy of it
-- in `getField` shares its array, which nothing of the generator reads once the copy is written to.
use ffjson.Inception.{Gen, ◌then◌}
use ffjson.Prelude.{List, [], ◌∷◌, ◌++◌, Bytes, codes}

-- `Write`
unfoldable pub push : Bytes → List Bytes → List Bytes
push s queued = queued ++ s ∷ []

-- `DeleteLast`
unfoldable pub delete_last : List Bytes → List Bytes
delete_last [] = []
delete_last (s ∷ []) = []
delete_last (s ∷ t ∷ queued) = s ∷ delete_last (t ∷ queued)

-- `Last`
unfoldable pub last : List Bytes → Bytes
last [] = []
last (s ∷ []) = s
last (s ∷ t ∷ queued) = last (t ∷ queued)

-- `strings.Join(w.Queued, "")`
unfoldable pub join : List Bytes → Bytes
join [] = []
join (s ∷ queued) = s ++ join queued

-- The statement that writes a text.
unfoldable pub write_statement : Bytes → Bytes
write_statement [] = []
write_statement (c ∷ []) = codes "buf.WriteByte('" ++ c ∷ codes "')\n"
write_statement (c ∷ d ∷ t) = codes "buf.WriteString(`" ++ (c ∷ d ∷ t) ++ codes "`)\n"

abbrev pub left_after : Bytes → List Bytes → List Bytes
left_after [] queued = queued
left_after (c ∷ t) queued = []

-- `Flush`: the statement, and the queue left.
unfoldable pub flush_queue : List Bytes → Bytes × List Bytes
unfolding write_statement join
flush_queue queued = (write_statement (join queued), left_after (join queued) queued)

-- The methods on the queue of the generator.
unfoldable pub queue_write : Bytes → Gen
unfolding push
queue_write s st = ([], record st { queued = push s st.queued })

unfoldable pub drop_write : Gen
unfolding delete_last
drop_write st = ([], record st { queued = delete_last st.queued })

unfoldable pub flush_writes : Gen
unfolding flush_queue
flush_writes st = ((flush_queue st.queued).0, record st { queued = (flush_queue st.queued).1 })

-- `WriteFlush`
abbrev pub write_flush : Bytes → Gen
write_flush s = queue_write s then flush_writes

-- `GetQueued`
unfoldable pub get_queued : Gen
unfolding flush_queue
get_queued st = ((flush_queue st.queued).0, st)
