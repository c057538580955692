-- ===== src/Tests.antt =====
-- Runs of the model on small inputs, and each theorem that has hypotheses applied to inputs that
-- meet them.
mod CacheRuns
mod BitmapRuns
mod FreeMapRuns
mod ThreadRuns
mod StringRuns
mod FileRuns
mod LockRuns
mod LinkRuns
mod TimerRuns
mod DirectoryRuns
mod PathRuns
mod HashRuns
mod PallocRuns
mod IntqRuns
