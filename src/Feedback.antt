-- ===== src/Feedback.antt =====
-- lib/src/feedback.c and lib/src/controller.c: controller events for the console, the ring of the
-- latest of them, and the touches.
pub mod Event
pub mod EventLaws
pub mod History
pub mod HistoryLaws
pub mod Touch
mod Tests
