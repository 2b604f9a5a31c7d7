-- ===== src/ReorderQueue.antt =====
-- lib/src/reorderqueue.c and lib/include/chiaki/reorderqueue.h: the window in which packets wait
-- for those before them. The function pointers `seq_num_gt`, `seq_num_lt` and `seq_num_add` are the
-- parameter `ops`, which chiaki_reorder_queue_init_16 and _32 set to `ops_16` and `ops_32`.
-- An operation returns the calls that it makes of `drop_cb`; a `none` is a failed `assert`.
pub mod Queue
pub mod Positions
pub mod Valid
pub mod Ops
pub mod Slots
pub mod Push
pub mod PushBranches
pub mod Extend
pub mod PushLaws
pub mod Pull
pub mod FirstSet
pub mod Order
pub mod Delivery
mod Tests
