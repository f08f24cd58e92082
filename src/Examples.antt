-- ===== src/Examples.antt =====
-- Tests of the definitions on small inputs, and the theorems at inputs that meet their hypotheses.
mod Departments
mod Reviews
mod Graphs
mod Agents
mod Chunks
mod Webhooks
mod Tags
mod Governances
mod States
mod Buses
mod Lifecycles
mod Executions
mod Edits
