-- ===== src/Alert.antt =====
-- internal/alert: what becomes of a detection once a person is responsible for it.
pub mod Key
pub mod State
pub mod Move
pub mod Lifecycle
pub mod Trail
pub mod Fold
