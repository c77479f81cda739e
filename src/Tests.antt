-- ===== src/Tests.antt =====
-- Runs of the model at concrete inputs, and the theorems applied to such inputs.
mod Allocation
mod Cell
mod Sftp
mod Storage
mod Runtime
mod Comb
mod Config
mod Files
mod Rcon
mod Backup
mod Mount
mod Players
